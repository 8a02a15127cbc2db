-- ===== src/Ring/Refine.antt =====
-- A ring that is valid behaves as the queue of at most 511 bytes that it holds.
use solarbot_update.Base.{
  ℕ, zero, suc, ◌+◌, ◌%◌, ◌^◌, ◌≤◌, ◌<◌, ◌≡◌, refl, ap, ap₂, ◌∙◌, arith, [], ◌∷◌, ◌++◌, Bytes,
  length, get_or, set, get_or-set_self, get_or-set_ne, ◌==◌, length-set,
}
use solarbot_update.Ring.{Ring, masked, sub_size, full, len, empty, add_size}

pub record IsValid (r : Ring) : Type 0 where
  pub storage : length r.buf ≡ 512
  pub head_in : r.head < 2 ^ 64
  pub tail_in : r.tail < 2 ^ 64
  pub len_in : sub_size r.head r.tail ≤ 511

-- The `n` bytes from place `t` on, going round at 512.
abbrev pub window : Bytes → ℕ → ℕ → Bytes
window buf t zero = []
window buf t (suc n) = get_or buf (masked t) 0 ∷ window buf (suc t) n

-- The bytes held, oldest first.
abbrev pub contents : Ring → Bytes
contents r = window r.buf r.tail (sub_size r.head r.tail)

pub length-window : (buf : Bytes) (n t : ℕ) → length (window buf t n) ≡ n
length-window buf zero t = refl
length-window buf (suc n) t = ap suc (length-window buf n (suc t))

-- Places are counted round the buffer.
window-mod : (buf : Bytes) (n t t' : ℕ) → t % 512 ≡ t' % 512 → window buf t n ≡ window buf t' n
window-mod buf zero t t' e = refl
window-mod buf (suc n) t t' e =
    ap₂ (λ (x : ℕ) (l : Bytes). get_or buf x 0 ∷ l) e
      (window-mod buf n (suc t) (suc t') (omega arith))

-- Writing just behind a window of at most 511 bytes extends it.
window-set :
    (buf : Bytes) (x n t i : ℕ)
    → length buf ≡ 512
    → n ≤ 511
    → i ≡ (t + n) % 512
    → window (set buf i x) t (suc n) ≡ window buf t n ++ x ∷ []
window-set buf x zero t i hs hn e =
    ap (λ (y : ℕ). y ∷ [])
      (ap (λ (j : ℕ). get_or (set buf i x) j 0) (omega arith)
        ∙ get_or-set_self buf i x 0 (omega arith))
window-set buf x (suc n) t i hs hn e =
    ap₂ ◌∷◌ (get_or-set_ne buf x 0 (λ h. absurd (omega (arith, h))))
      (window-set buf x n (suc t) i hs (omega arith) (omega arith))

-- `full` and `empty` mean what their names say.
pub full-len : {r : Ring} → IsValid r → full r ≡ (len r == 511)
unfolding full len
full-len v = ground arith

pub empty-len : {r : Ring} → IsValid r → empty r ≡ (len r == 0)
unfolding empty len
empty-len v = ground arith

pub length-contents : (r : Ring) → length (contents r) ≡ len r
unfolding len
length-contents r = length-window r.buf (len r) r.tail

-- Writing one byte.
abbrev pub append : Ring → ℕ → Ring
append r item = record r { buf = set r.buf (masked r.head) item; head = add_size r.head 1 }

-- Taking one byte off.
abbrev pub advance : Ring → Ring
advance r = record r { tail = add_size r.tail 1 }

pub append-IsValid : (r : Ring) (x : ℕ) → IsValid r → len r < 511 → IsValid (append r x)
unfolding len
append-IsValid r x v h = record {
  storage = length-set r.buf (masked r.head) x ∙ v.storage;
  head_in = omega arith;
  tail_in = v.tail_in;
  len_in = omega (arith, v.head_in, v.tail_in);
}

pub contents-append :
    (r : Ring) (x : ℕ) → IsValid r → len r < 511 → contents (append r x) ≡ contents r ++ x ∷ []
unfolding len
contents-append r x v h =
    ap (window (set r.buf (masked r.head) x) r.tail) {y = suc (len r)}
      (omega (arith, v.head_in, v.tail_in))
    ∙ window-set r.buf x (len r) r.tail (masked r.head) v.storage v.len_in
        (omega (arith, v.head_in, v.tail_in))

pub advance-IsValid : (r : Ring) → IsValid r → 0 < len r → IsValid (advance r)
unfolding len
advance-IsValid r v h = record {
  storage = v.storage;
  head_in = v.head_in;
  tail_in = omega arith;
  len_in = omega (arith, v.head_in, v.tail_in, v.len_in);
}

pub len-advance : (r : Ring) → IsValid r → 0 < len r → len r ≡ suc (len (advance r))
unfolding len
len-advance r v h = omega (arith, v.head_in, v.tail_in, v.len_in)

pub contents-advance :
    (r : Ring)
    → IsValid r
    → 0 < len r
    → contents r ≡ get_or r.buf (masked r.tail) 0 ∷ contents (advance r)
unfolding len
contents-advance r v h =
    ap (window r.buf r.tail) (len-advance r v h)
    ∙ ap (λ (l : Bytes). get_or r.buf (masked r.tail) 0 ∷ l)
        (window-mod r.buf (len (advance r)) (suc r.tail) (add_size r.tail 1)
          (omega (arith, v.tail_in)))
