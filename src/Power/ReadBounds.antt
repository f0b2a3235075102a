-- ===== src/Power/ReadBounds.antt =====
-- What `_read_exact` and `read_rpc_frames` of team/power_execution.py do on any socket.
use shimpz_drivers.Prelude.{
  ℕ, suc, zero, ◌+◌, ◌-◌, ◌≤◌, ◌<◌, true, false, not, ◌||◌, List, [], ◌∷◌, ◌++◌, Result, ok, err,
  ◌≡◌, refl, subst, arith, ltb, leb, ◌==◌, eq_nat, length, length-append, Bool-cases, Result-cases,
  inl, inr, ◌⊎◌,
}
use shimpz_drivers.Prelude.Actions.{◌>>=◌, after}
use shimpz_drivers.Power.Frames.{
  ReadError, timed_out, ended, invalid, os_failed, malformed, spent, os_error, Socket, is_empty,
  wait, unpack, extend, is_oversized, read_more, read_exact, read_payload, read_frame, read_frames,
  read_rpc_frames,
}

-- To split on what an action gives, the state too.
pub action_cases :
    {S E A : Type 0} (r : Result E A × S)
    → ((e : E) × (s : S) × (r ≡ (err e, s))) ⊎ ((a : A) × (s : S) × (r ≡ (ok a, s)))
action_cases (err e, s) = inl (e, s, refl)
action_cases (ok a, s) = inr (a, s, refl)

not_empty_length : (l : List ℕ) → is_empty l ≡ false → 0 < length l
not_empty_length [] h = absurd (ground (arith, h))
not_empty_length (x ∷ l) h = omega arith

-- TimeoutError or OSError.
abbrev WaitRaises : ReadError → Type 0
WaitRaises timed_out = Unit
WaitRaises os_failed = Unit
WaitRaises _ = ⊥

abbrev WaitEnds : Result ReadError (Unit {0}) → Type 0
WaitEnds (ok _) = Unit
WaitEnds (err e) = WaitRaises e

-- A read of `amount` bytes returns that many at least, or raises TimeoutError, EOFError or OSError.
abbrev pub ReadEnds : ℕ → Result ReadError (List ℕ) → Type 0
ReadEnds amount (ok output) = amount ≤ length output
ReadEnds amount (err timed_out) = Unit
ReadEnds amount (err ended) = Unit
ReadEnds amount (err os_failed) = Unit
ReadEnds amount (err _) = ⊥

reads_of_waits : (amount : ℕ) (e : ReadError) → WaitRaises e → ReadEnds amount (err e)
reads_of_waits amount timed_out h = tt
reads_of_waits amount os_failed h = tt
reads_of_waits amount ended h = absurd h
reads_of_waits amount invalid h = absurd h
reads_of_waits amount malformed h = absurd h
reads_of_waits amount spent h = absurd h

module _ {S : Type 0} (raw_socket : Socket S) (deadline : ℕ) where
  wait-WaitEnds : (s : S) → WaitEnds (wait raw_socket deadline s).0
  unfolding wait ◌>>=◌ after
  wait-WaitEnds s = elim (Bool-cases (leb deadline (raw_socket.monotonic s).0)) [
    | inl late ↦ rw late tt
    | inr early ↦
        rw early
          (elim (action_cases (
            raw_socket.readable (deadline - (raw_socket.monotonic s).0)
              (raw_socket.monotonic s).1)) [
                | inl (os_error, t, p) ↦ rw p tt
                | inr (true, t, p) ↦ rw p tt
                | inr (false, t, p) ↦ rw p tt
              ])
  ]

  read_more-ReadEnds :
      (fuel amount : ℕ) (output : List ℕ) (s : S)
      → amount ≤ length output + fuel
      → ReadEnds amount (read_more raw_socket deadline fuel amount output s).0
  unfolding read_more ◌>>=◌ after
  read_more-ReadEnds zero amount output s h =
      let whole : leb amount (length output) ≡ true = ground (arith, h) in
      rw whole (omega (arith, h))
  read_more-ReadEnds (suc n) amount output s h = elim (Bool-cases (leb amount (length output))) [
    | inl whole ↦ rw whole (ground (arith, whole))
    | inr part ↦ rw part (elim (action_cases (wait raw_socket deadline s)) [
      | inl (e, t, p) ↦
          rw p (reads_of_waits amount e (subst (λ r. WaitEnds r.0) p (wait-WaitEnds s)))
      | inr (_, t, p) ↦ rw p (elim (action_cases (raw_socket.recv (amount - length output) t)) [
        | inl (os_error, u, q) ↦ rw q tt
        | inr (chunk, u, q) ↦ rw q (elim (Bool-cases (is_empty chunk)) [
          | inl nothing ↦ rw nothing tt
          | inr some_bytes ↦ rw some_bytes (
              read_more-ReadEnds n amount (output ++ chunk) u
                (omega (arith, h, length-append output chunk, not_empty_length chunk some_bytes)))
        ])
      ])
    ])
  ]

  -- On any socket, with as much fuel as bytes are asked for, the loop of _read_exact ends: it returns
  -- at least the bytes asked for, or it raises TimeoutError, EOFError or OSError.
  pub read_exact-ReadEnds :
      (amount : ℕ) (s : S) → ReadEnds amount (read_exact raw_socket deadline amount s).0
  unfolding read_exact
  read_exact-ReadEnds amount s = read_more-ReadEnds amount amount [] s (omega arith)

  Fits : ℕ → Result ReadError (List ℕ × List ℕ) → Type 0
  Fits maximum (ok (out, errors)) = length out + length errors ≤ maximum
  Fits maximum (err e) = Unit

  read_payload-Fits :
      (maximum : ℕ) (outputs : List ℕ × List ℕ) (fields : ℕ × ℕ) (s : S)
      → Fits maximum (read_payload raw_socket deadline maximum outputs fields s).0
  unfolding Fits read_payload ◌>>=◌ after
  read_payload-Fits maximum (out, errors) (stream_id, size) s =
      elim (Bool-cases (not (stream_id == 1 || stream_id == 2))) [
        | inl unknown ↦ rw unknown tt
        | inr known ↦ rw known (elim (Bool-cases (ltb (maximum + 1) size)) [
          | inl large ↦ rw large tt
          | inr fits ↦ rw fits (elim (action_cases (read_exact raw_socket deadline size s)) [
            | inl (e, t, p) ↦ rw p tt
            | inr (chunk, t, p) ↦
                rw p (elim (Bool-cases (is_oversized maximum (extend stream_id chunk out errors))) [
                  | inl over ↦ rw over tt
                  | inr small ↦ rw small (ground (arith, small))
                ])
          ])
        ])
      ]

  read_frame-Fits :
      (maximum : ℕ) (outputs : List ℕ × List ℕ) (first : List ℕ) (s : S)
      → Fits maximum (read_frame raw_socket deadline maximum outputs first s).0
  unfolding Fits read_frame ◌>>=◌ after
  read_frame-Fits maximum outputs first s =
      elim (action_cases (read_exact raw_socket deadline 7 s)) [
        | inl (e, t, p) ↦ rw p tt
        | inr (rest, t, p) ↦ rw p (elim (Result-cases (unpack (first ++ rest))) [
          | inl (e, q) ↦ rw q tt
          | inr (fields, q) ↦ rw q (read_payload-Fits maximum outputs fields t)
        ])
      ]

  read_frames-Fits :
      (fuel maximum : ℕ) (outputs : List ℕ × List ℕ) (s : S)
      → Fits maximum (ok outputs)
      → Fits maximum (read_frames raw_socket deadline fuel maximum outputs s).0
  unfolding Fits read_frames ◌>>=◌ after
  read_frames-Fits zero maximum outputs s h = tt
  read_frames-Fits (suc n) maximum outputs s h =
      elim (action_cases (read_exact raw_socket deadline 1 s)) [
        | inl (ended, t, p) ↦ rw p h
        | inl (e, t, p) ↦ rw p tt
        | inr (first, t, p) ↦
            rw p (elim (action_cases (read_frame raw_socket deadline maximum outputs first t)) [
              | inl (e, u, q) ↦ rw q tt
              | inr (more, u, q) ↦ rw q (
                  read_frames-Fits n maximum more u
                    (subst (λ r. Fits maximum r.0) q (read_frame-Fits maximum outputs first t)))
            ])
      ]

  -- On any socket and with any fuel: if read_rpc_frames returns, then the standard output and the
  -- standard error together have at most `maximum` bytes.
  pub read_rpc_frames-le-maximum :
      (fuel maximum : ℕ) (s : S) {out errors : List ℕ}
      → (read_rpc_frames raw_socket deadline fuel maximum s).0 ≡ ok (out, errors)
      → length out + length errors ≤ maximum
  unfolding Fits read_rpc_frames
  read_rpc_frames-le-maximum fuel maximum s h =
      subst (Fits maximum) h (read_frames-Fits fuel maximum ([], []) s (omega arith))
