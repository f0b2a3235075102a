-- ===== src/Power/Stream.antt =====
-- What `_read_exact` of team/power_execution.py reads from a socket that delivers a stream of bytes
-- in chunks of any size.
use shimpz_drivers.Prelude.{
  ℕ, suc, zero, ◌+◌, ◌-◌, ◌≤◌, ◌<◌, true, false, List, [], ◌∷◌, ◌++◌, ok, ◌≡◌, refl, sym, ap, ◌∙◌,
  subst₂, arith, leb, eq_nat, length, length-append,
}
use mathlib.Core.List.{append_assoc, append-nil}
use shimpz_drivers.Prelude.Actions.{◌>>=◌, after}
use shimpz_drivers.Power.Frames.{Socket, wait, is_empty, read_more}

-- The socket is readable in time, and each `recv` takes some of the bytes to come, at most as many
-- as it is asked for, and none only at the end of the stream.
pub record Delivers {S : Type 0} (raw_socket : Socket S) (deadline : ℕ) (pending : S → List ℕ)
    : Type 0 where
  pub clock :
      (s : S)
      → (now : ℕ) × (t : S) × (raw_socket.monotonic s ≡ (now, t))
        × (now < deadline)
        × (pending t ≡ pending s)
  pub ready :
      (remaining : ℕ) (s : S)
      → (t : S) × (raw_socket.readable remaining s ≡ (ok true, t)) × (pending t ≡ pending s)
  pub takes :
      (amount : ℕ) (s : S)
      → 0 < amount
      → (chunk : List ℕ) × (t : S) × (raw_socket.recv amount s ≡ (ok chunk, t))
        × (length chunk ≤ amount)
        × (pending s ≡ chunk ++ pending t)
        × (0 < length (pending s) → 0 < length chunk)

append_split :
    (a b c d : List ℕ)
    → a ++ b ≡ c ++ d
    → length a ≤ length c
    → (e : List ℕ) × (c ≡ a ++ e) × (b ≡ e ++ d)
append_split [] b c d h k = (c, refl, h)
append_split (x ∷ a) b [] d h k = absurd (omega (arith, k))
append_split (x ∷ a) b (y ∷ c) d h k =
    let (e, p, q) = append_split a b c d (ground (arith, h)) (omega (arith, k)) in
    (e, ground (arith, h, p), q)

pub not_empty : (l : List ℕ) → 0 < length l → is_empty l ≡ false
not_empty [] h = absurd (omega (arith, h))
not_empty (x ∷ l) h = refl

pub emptied : (l r : List ℕ) → l ++ r ≡ [] → is_empty l ≡ true
emptied [] r h = refl
emptied (x ∷ l) r h = absurd (ground (arith, h))

module _ {S : Type 0} (raw_socket : Socket S) (deadline : ℕ) (pending : S → List ℕ)
    (v : Delivers raw_socket deadline pending) where
  pub wait_lem :
      (s : S) → (t : S) × (wait raw_socket deadline s ≡ (ok tt, t)) × (pending t ≡ pending s)
  unfolding wait ◌>>=◌ after
  wait_lem s =
      let (now, t, p, early, q) = v.clock s in
      let (u, r, z) = v.ready (deadline - now) t in (u, ground (arith, p, r, early), z ∙ q)

  read_more_done :
      (fuel : ℕ) (output : List ℕ) (s : S)
      → read_more raw_socket deadline fuel (length output) output s ≡ (ok output, s)
  unfolding read_more
  read_more_done zero output s = ground arith
  read_more_done (suc n) output s = ground arith

  pub read_more_lem :
      (fuel amount : ℕ) (output xs rest : List ℕ) (s : S)
      → length xs ≤ fuel
      → length output + length xs ≡ amount
      → pending s ≡ xs ++ rest
      → (t : S) × (read_more raw_socket deadline fuel amount output s ≡ (ok (output ++ xs), t))
        × (pending t ≡ rest)
  unfolding read_more ◌>>=◌ after
  read_more_lem fuel amount output [] rest s f h k = (
    s,
    subst₂ (λ a o. read_more raw_socket deadline fuel a output s ≡ (ok o, s)) (omega (arith, h))
        (sym (append-nil output)) (read_more_done fuel output s),
    k,
  )
  read_more_lem zero amount output (x ∷ xs) rest s f h k = absurd (omega (arith, f))
  read_more_lem (suc n) amount output (x ∷ xs) rest s f h k =
      let (t, p, q) = wait_lem s in
      let (chunk, u, r, short, split, some_read) =
        v.takes (amount - length output) t (omega (arith, h)) in
      let (e, ce, be) =
        append_split chunk (pending u) (x ∷ xs) rest (sym split ∙ q ∙ k)
          (omega (arith, h, short)) in
      let lq : length (pending t) ≡ suc (length xs) + length rest =
        ap length (q ∙ k) ∙ length-append (x ∷ xs) rest in
      let lce : suc (length xs) ≡ length chunk + length e = ap length ce ∙ length-append chunk e in
      let (w, i, j) =
        read_more_lem n amount (output ++ chunk) e rest u
          (omega (arith, f, lce, some_read (omega (arith, lq))))
          (ground (arith, h, lce, length-append output chunk)) be in
      let some_bytes = not_empty chunk (some_read (omega (arith, lq))) in
      let low : leb amount (length output) ≡ false = ground (arith, h) in
      (w, ground (arith, low, p, r, some_bytes, i, ce, append_assoc output chunk e), j)
