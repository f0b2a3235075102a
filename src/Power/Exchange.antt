-- ===== src/Power/Exchange.antt =====
-- `rpc_exchange` of team/power_execution.py: one bounded RPC of Docker. The API of Docker, the reading
-- of the frames, and the callbacks of the strategy are parameters that act on a world.
use shimpz_drivers.Prelude.{
  ℕ, ◌≡◌, ◌≢◌, refl, sym, ap, ◌∙◌, arith, Bool, true, false, not, ◌&&◌, ◌||◌, Option, none, some,
  List, [], ◌∷◌, String, Result, ok, err, if◌then◌else◌, ◌==◌, eq_nat, Bool-cases, inl, inr,
}
use shimpz_drivers.Prelude.Int.{ℤ, pos, negsuc}
use shimpz_drivers.Prelude.Actions.{Action, pure, raise, after, ◌>>=◌, ◌>>◌, bind_returns}
use shimpz_drivers.Value.{Value, int, bool}
use shimpz_drivers.Chat.State.{Answer}
use shimpz_drivers.Power.Secrets.{decode_rpc_response}

-- RpcExchangeError by its kind, and what else is raised: by `cancelled`, or as another exception.
pub data ExchangeError : Type 0 where
  timeout failed ambiguous unsupported_path invalid_result stopped other : ExchangeError

-- How a call of Docker, of the socket or of the frames fails: by TimeoutError; by a transport error;
-- by an OSError, a ValueError or a KeyError; or by another exception.
pub data Failure : Type 0 where
  timeout_error transport_error caught_error other_error : Failure

abbrev pub Api : Type 0 → Type 0 → Type 0
Api W A = Action W Failure A

pub record Exchange (W Stream Sock : Type 0) : Type 0 where
  -- exec_create and exec_start; the stream exists once both have returned
  pub exec_create : Api W String
  pub exec_start : String → Api W Stream
  -- `getattr(stream, "_sock", None)`
  pub sock : Stream → Option Sock
  pub sendall : Sock → List ℕ → Api W (Unit {0})
  pub shutdown : Sock → Api W (Unit {0})
  -- read_rpc_frames until the deadline
  pub read_rpc_frames : Sock → Api W (List ℕ × List ℕ)
  -- what exec_inspect gives under "ExitCode"; null where it gives nothing
  pub exec_inspect : String → Api W Value
  pub fail_stop : W → W
  -- true: it raises
  pub cancelled : W → Bool × W
  pub close_stream : Stream → W → W

-- `strategy.cancelled(exc)`, then `raise RpcExchangeError(kind)`
abbrev pub unless_cancelled : {W A : Type 0} → ExchangeError → Bool × W → Result ExchangeError A × W
unless_cancelled kind (true, w) = (err stopped, w)
unless_cancelled kind (false, w) = (err kind, w)

module _ {W Stream Sock : Type 0} (x : Exchange W Stream Sock) (encoded : List ℕ) where
  -- The two handlers of the inner `try`.
  unfoldable pub on_failure : {A : Type 0} → Failure → W → Result ExchangeError A × W
  on_failure timeout_error w = unless_cancelled timeout (x.cancelled (x.fail_stop w))
  on_failure transport_error w = unless_cancelled failed (x.cancelled (x.fail_stop w))
  on_failure caught_error w = unless_cancelled failed (x.cancelled (x.fail_stop w))
  on_failure other_error w = (err other, w)

  abbrev pub handled : {A : Type 0} → Result Failure A × W → Result ExchangeError A × W
  handled (ok a, w) = (ok a, w)
  handled (err e, w) = on_failure e w

  -- `finally: strategy.close_stream(stream)`
  abbrev pub closing :
      {A : Type 0} → Stream → Result ExchangeError A × W → Result ExchangeError A × W
  closing stream (r, w) = (r, x.close_stream stream w)

  -- What is done with a stream: the input is sent, and the two outputs are read.
  unfoldable pub send_and_read : Stream → Api W (List ℕ × List ℕ)
  send_and_read stream = elim (x.sock stream) [
    | none ↦ raise caught_error
    | some raw_socket ↦ do
      x.sendall raw_socket encoded
      x.shutdown raw_socket
      x.read_rpc_frames raw_socket
  ]

  -- The block under `try` and `finally`: the exec's id and the two outputs.
  unfoldable pub run_exec : Action W ExchangeError (String × (List ℕ × List ℕ))
  run_exec = do
    exec_id ← λ w. handled (x.exec_create w)
    stream ← λ w. handled (x.exec_start exec_id w)
    outputs ← λ w. closing stream (handled (send_and_read stream w))
    pure (exec_id, outputs)

  -- The handler of `exec_inspect`, which takes transport errors alone.
  abbrev pub inspected_by : Result Failure Value × W → Result ExchangeError Value × W
  inspected_by (ok details, w) = (ok details, w)
  inspected_by (err transport_error, w) = unless_cancelled ambiguous (x.cancelled (x.fail_stop w))
  inspected_by (err _, w) = (err other, w)

  -- `isinstance(exit_code, int)`: a bool is one
  abbrev pub exit_number : Value → Option ℤ
  exit_number (int n) = some n
  exit_number (bool true) = some (pos 1)
  exit_number (bool false) = some (pos 0)
  exit_number _ = none

  abbrev pub is_exit : ℕ → ℤ → Bool
  is_exit k (pos n) = n == k
  is_exit k (negsuc n) = false

  abbrev pub is_empty : List ℕ → Bool
  is_empty [] = true
  is_empty (_ ∷ _) = false

  abbrev pub decoded : Option Answer → W → Result ExchangeError Answer × W
  decoded none w = (err invalid_result, w)
  decoded (some a) w = (ok a, w)

  -- What follows the inspection.
  unfoldable pub conclude :
      (List ℕ → Option Value) → Bool → List ℕ × List ℕ → Option ℤ → Action W ExchangeError Answer
  conclude loads detect outputs none w = unless_cancelled ambiguous (x.cancelled (x.fail_stop w))
  conclude loads detect (stdout, stderr) (some code) w =
      if not (is_exit 0 code) || not (is_empty stderr)
      then (if detect && is_exit 2 code && is_empty stdout && is_empty stderr
          then (err unsupported_path, w)
          else unless_cancelled failed (x.cancelled w))
      else decoded (decode_rpc_response loads stdout) w

  unfoldable pub rpc_exchange : (List ℕ → Option Value) → Bool → Action W ExchangeError Answer
  rpc_exchange loads detect_unsupported_path = do
    (exec_id, outputs) ← run_exec
    details ← λ w. inspected_by (x.exec_inspect exec_id w)
    conclude loads detect_unsupported_path outputs (exit_number details)

  cancelled_raises :
      (kind : ExchangeError) (r : Bool × W) (a : Answer) (w : W)
      → unless_cancelled kind r ≢ (ok a, w)
  cancelled_raises kind (true, v) a w h = ground (arith, h)
  cancelled_raises kind (false, v) a w h = ground (arith, h)

  not_concluded :
      (b : Bool) (u w : W) (a : Answer)
      → (if b then (err unsupported_path, u) else unless_cancelled failed (x.cancelled u))
        ≢ (ok a, w)
  not_concluded true u w a h = ground (arith, h)
  not_concluded false u w a h = cancelled_raises failed (x.cancelled u) a w h

  decoded_ok :
      (o : Option Answer) (u w : W) (a : Answer) → decoded o u ≡ (ok a, w) → (o ≡ some a) × (w ≡ u)
  decoded_ok none u w a h = absurd (ground (arith, h))
  decoded_ok (some b) u w a h = (ground (arith, h), ground (arith, h))

  exit_zero : (code : ℤ) → is_exit 0 code ≡ true → code ≡ pos 0
  exit_zero (pos n) h = ap pos (ground (arith, h))
  exit_zero (negsuc n) h = absurd (ground (arith, h))

  nothing : (l : List ℕ) → is_empty l ≡ true → l ≡ []
  nothing [] h = refl
  nothing (c ∷ cs) h = absurd (ground (arith, h))

  conclude_lem :
      (loads : List ℕ → Option Value) (detect : Bool) (outputs : List ℕ × List ℕ) (code : Option ℤ)
      (u w : W) (a : Answer)
      → conclude loads detect outputs code u ≡ (ok a, w)
      → (code ≡ some (pos 0))
        × (outputs.1 ≡ [])
        × (decode_rpc_response loads outputs.0 ≡ some a)
        × (w ≡ u)
  unfolding conclude
  conclude_lem loads detect outputs none u w a h = absurd (cancelled_raises ambiguous _ a w h)
  conclude_lem loads detect (stdout, stderr) (some code) u w a h =
      elim (Bool-cases (not (is_exit 0 code) || not (is_empty stderr))) [
        | inl bad ↦ absurd (not_concluded _ u w a (rw bad at h))
        | inr good ↦
            let (d, e) = decoded_ok (decode_rpc_response loads stdout) u w a (rw good at h) in
            (
              ap some (exit_zero code (ground (arith, good))),
              nothing stderr (ground (arith, good)),
              d,
              e,
            )
      ]

  inspected_ok :
      (r : Result Failure Value × W) (v : Value) (w : W)
      → inspected_by r ≡ (ok v, w)
      → r ≡ (ok v, w)
  inspected_ok (ok b, u) v w h = ground (arith, h)
  inspected_ok (err transport_error, u) v w h = absurd (ground (arith, h))
  inspected_ok (err timeout_error, u) v w h = absurd (ground (arith, h))
  inspected_ok (err caught_error, u) v w h = absurd (ground (arith, h))
  inspected_ok (err other_error, u) v w h = absurd (ground (arith, h))

  -- If rpc_exchange returns an answer, then the block under `try` returned a standard output and an
  -- empty standard error, the inspection of that exec gave the exit code 0, and the answer is what
  -- that standard output decodes to.
  pub rpc_exchange-ok :
      (loads : List ℕ → Option Value) (detect : Bool) (s t : W) (a : Answer)
      → rpc_exchange loads detect s ≡ (ok a, t)
      → (exec_id : String) × (stdout : List ℕ) × (details : Value) × (u : W) × (run_exec s
          ≡ (ok (exec_id, (stdout, [])), u))
        × (x.exec_inspect exec_id u ≡ (ok details, t))
        × (exit_number details ≡ some (pos 0))
        × (decode_rpc_response loads stdout ≡ some a)
  unfolding rpc_exchange ◌>>=◌ after
  rpc_exchange-ok loads detect s t a h =
      let (block, u, p, k) = bind_returns run_exec _ s a t h in
      let (details, v, q, l) =
        bind_returns (λ w. inspected_by (x.exec_inspect block.0 w)) _ u a t k in
      let (code, quiet, answer, same) =
        conclude_lem loads detect block.1 (exit_number details) v t a l in
      (
        block.0,
        block.1.0,
        details,
        u,
        p ∙ ap (λ o. (ok (block.0, (block.1.0, o)), u)) quiet,
        inspected_ok _ details v q ∙ ap (λ w. (ok details, w)) (sym same),
        code,
        answer,
      )
