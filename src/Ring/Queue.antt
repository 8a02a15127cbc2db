-- ===== src/Ring/Queue.antt =====
-- What the circular buffer promises: a queue of at most 511 bytes.
use solarbot_update.Base.{
  refl, ◌++◌, zero, none, some, take-nil, if◌then◌else◌, ltb, length, take, drop, ◌≡◌, ◌<◌, ◌≤◌,
  arith, Bool-cases, sym, ◌∙◌, get_or, ℕ, Bool, Bytes, List, ◌≡◌, Bool-cases, ◌≤◌, drop, Option, [],
  ◌∷◌, inl, take, arith, inr, suc, ap, false, true, ◌<◌, ltb, length, ◌++◌, none, some, ap₂,
}
use solarbot_update.Ring.{
  Ring, masked, init, empty, full, len, put, get, fill_loop, fill_buffer, reset,
}
use solarbot_update.Ring.Refine.{
  window, IsValid, contents, advance, full-len, empty-len, length-contents, append-IsValid,
  contents-append, advance-IsValid, len-advance, contents-advance, window,
}

-- The calls of the class.
pub data Call : Type 0 where
  init_call : Call
  put_call : ℕ → Call
  get_call : Call
  fill_call : ℕ → Call
  reset_call : Call
  len_call : Call

pub data Answer : Type 0 where
  nothing : Answer
  accepted : Bool → Answer
  got : Option ℕ → Answer
  filled : Bytes → Answer
  counted : ℕ → Answer

unfoldable pub call_ring : Ring → Call → Ring × Answer
call_ring r init_call = (init r, nothing)
call_ring r (put_call x) = let (r', ok) = put r x in (r', accepted ok)
call_ring r get_call = let (r', x) = get r in (r', got x)
call_ring r (fill_call n) = let (r', bytes) = fill_buffer r n in (r', filled bytes)
call_ring r reset_call = (reset r, nothing)
call_ring r len_call = (r, counted (len r))

-- The same calls on a plain list of bytes, oldest first.
unfoldable pub call_queue : Bytes → Call → Bytes × Answer
call_queue q init_call = ([], nothing)
call_queue q (put_call x) =
    if ltb (length q) 511 then (q ++ x ∷ [], accepted true) else (q, accepted false)
call_queue [] get_call = ([], got none)
call_queue (x ∷ q) get_call = (q, got (some x))
call_queue q (fill_call n) = (drop n q, filled (take n q))
call_queue q reset_call = ([], nothing)
call_queue q len_call = (q, counted (length q))

unfoldable pub run_ring : Ring → List Call → List Answer
unfolding call_ring
run_ring r [] = []
run_ring r (c ∷ cs) = let (r', a) = call_ring r c in a ∷ run_ring r' cs

unfoldable pub run_queue : Bytes → List Call → List Answer
unfolding call_queue
run_queue q [] = []
run_queue q (c ∷ cs) = let (q', a) = call_queue q c in a ∷ run_queue q' cs

-- A ring and what it returned stand for a queue and what it returned.
abbrev Agrees {ℓ} : {A : Type ℓ} → Ring × A → Bytes × A → Type ℓ
Agrees (r, a) (q, b) = IsValid r × (contents r ≡ q) × (a ≡ b)

-- A ring whose indices meet is valid and empty.
init-IsValid : (r : Ring) → IsValid r → IsValid (init r) × (contents (init r) ≡ [])
unfolding init
init-IsValid r v = (
  record {
    storage = v.storage;
    head_in = omega arith;
    tail_in = omega arith;
    len_in = omega arith;
  },
  refl,
)

reset-IsValid : (r : Ring) → IsValid r → IsValid (reset r) × (contents (reset r) ≡ [])
unfolding reset
reset-IsValid r v = (
  record { storage = v.storage; head_in = v.tail_in; tail_in = v.tail_in; len_in = omega arith },
  ap (window r.buf r.tail) {y = 0} (omega arith),
)

less : (r : Ring) → IsValid r → full r ≡ false → len r < 511
unfolding len
less r v e = ground (arith, full-len v, v.len_in, e)

less_off : (r : Ring) → IsValid r → full r ≡ true → ltb (length (contents r)) 511 ≡ false
unfolding len
less_off r v e = ground (arith, full-len v, length-contents r, e)

less_on : (r : Ring) → IsValid r → full r ≡ false → ltb (length (contents r)) 511 ≡ true
unfolding len
less_on r v e = ground (arith, less r v e, length-contents r)

put-Agrees :
    (r : Ring) (x : ℕ)
    → IsValid r
    → Agrees (call_ring r (put_call x)) (call_queue (contents r) (put_call x))
unfolding call_ring call_queue put
put-Agrees r x v = elim (Bool-cases (full r)) [
  | inl e ↦ rw e (rw (less_off r v e) (v, refl, refl))
  | inr e ↦ rw e (
      rw (less_on r v e)
        (append-IsValid r x v (less r v e), contents-append r x v (less r v e), refl))
]

contents-empty : (r : Ring) → IsValid r → empty r ≡ true → contents r ≡ []
unfolding len
contents-empty r v e = ap (window r.buf r.tail) {y = 0} (ground (arith, empty-len v, e))

some_held : (r : Ring) → IsValid r → empty r ≡ false → 0 < len r
unfolding len
some_held r v e = ground (arith, empty-len v, e)

get-Agrees :
    (r : Ring) → IsValid r → Agrees (call_ring r get_call) (call_queue (contents r) get_call)
unfolding call_ring call_queue get
get-Agrees r v = elim (Bool-cases (empty r)) [
  | inl e ↦ rw e (rw (contents-empty r v e) (v, refl, refl))
  | inr e ↦ rw e (
      rw (contents-advance r v (some_held r v e))
        (advance-IsValid r v (some_held r v e), refl, refl))
]

fill_loop-Agrees :
    (k : ℕ) (r : Ring)
    → IsValid r
    → k ≤ len r
    → Agrees (fill_loop k r) (drop k (contents r), take k (contents r))
unfolding fill_loop
fill_loop-Agrees zero r v h = (v, refl, refl)
fill_loop-Agrees (suc k) r v h = rw (contents-advance r v (omega arith)) (
    let (v', q, a) =
      fill_loop-Agrees k (advance r) (advance-IsValid r v (omega arith))
        (omega (arith, len-advance r v (omega arith))) in
    (v', q, ap (λ (l : Bytes). get_or r.buf (masked r.tail) 0 ∷ l) a))

drop-nil : (n : ℕ) → drop {A = ℕ} n [] ≡ []
drop-nil zero = refl
drop-nil (suc n) = refl

-- Asking for more than there is takes everything.
all_of :
    (n : ℕ) (q : Bytes)
    → length q ≤ n
    → ◌≡◌ {A = Bytes × Bytes} (drop (length q) q, take (length q) q) (drop n q, take n q)
all_of n [] h = λ i. (sym (drop-nil n) i, sym (take-nil ℕ n) i)
all_of zero (x ∷ q) h = absurd (omega arith)
all_of (suc n) (x ∷ q) h = ap (λ (p : Bytes × Bytes). (p.0, x ∷ p.1)) (all_of n q (omega arith))

fill_buffer-Agrees :
    (r : Ring) (n : ℕ)
    → IsValid r
    → Agrees (fill_buffer r n) (drop n (contents r), take n (contents r))
unfolding fill_buffer
fill_buffer-Agrees r n v = elim (Bool-cases (ltb 0 (len r))) [
  | inl e ↦ elim (Bool-cases (ltb n (len r))) [
    | inl f ↦ rw e (rw f (fill_loop-Agrees n r v (ground arith)))
    | inr f ↦
        let whole = all_of n (contents r) (ground (arith, length-contents r)) in
        let rest = fill_loop-Agrees (len r) r v (omega arith) in
        let (v', q, a) = rest in
        rw e (
          rw f (
            v',
            q
                ∙ ap (λ (k : ℕ). drop k (contents r)) (sym (length-contents r))
                ∙ ap (λ (p : Bytes × Bytes). p.0) whole,
            a
                ∙ ap (λ (k : ℕ). take k (contents r)) (sym (length-contents r))
                ∙ ap (λ (p : Bytes × Bytes). p.1) whole,
          ))
  ]
  | inr e ↦ rw e (
      rw (contents-empty r v (ground (arith, empty-len v, e)))
        (rw (drop-nil n) (rw (take-nil ℕ n) (v, refl, refl))))
]

call-Agrees : (r : Ring) (c : Call) → IsValid r → Agrees (call_ring r c) (call_queue (contents r) c)
unfolding call_ring call_queue
call-Agrees r init_call v = let (v', q) = init-IsValid r v in (v', q, refl)
call-Agrees r (put_call x) v = put-Agrees r x v
call-Agrees r get_call v = get-Agrees r v
call-Agrees r (fill_call n) v = let (v', q, a) = fill_buffer-Agrees r n v in (v', q, ap filled a)
call-Agrees r reset_call v = let (v', q) = reset-IsValid r v in (v', q, refl)
call-Agrees r len_call v = (v, refl, ap counted (sym (length-contents r)))

-- A valid ring answers every sequence of calls as the queue of at most 511 bytes that it holds:
-- `put` takes a byte exactly when fewer than 511 are held, `get` and `fillBuffer` take the oldest ones
-- off in order, `init` and `reset` empty the ring, and `len` counts. The indices may wrap at 2 ^ 64.
pub run_ring-run_queue :
    (cs : List Call) (r : Ring) → IsValid r → run_ring r cs ≡ run_queue (contents r) cs
unfolding run_ring run_queue
run_ring-run_queue [] r v = refl
run_ring-run_queue (c ∷ cs) r v =
    let (v', q, a) = call-Agrees r c v in
    ap₂ ◌∷◌ a (run_ring-run_queue cs (call_ring r c).0 v' ∙ ap (λ (l : Bytes). run_queue l cs) q)
