-- ===== src/Ring.antt =====
-- Fast512BytesCircularBuffer.cpp: a circular buffer of 512 bytes. `head_` and `tail_` are `size_t`,
-- 64 bits wide, which only grow and wrap; `x & MASK` is `x % 512`. Each call runs alone: the mutex is
-- not modelled.
pub mod Refine
pub mod Queue
mod Tests
use solarbot_update.Base.{
  ℕ, zero, suc, ◌+◌, ◌-◌, ◌%◌, ◌^◌, Bool, true, false, Option, none, some, List, [], ◌∷◌, Bytes,
  get_or, set, ltb, ◌==◌, if◌then◌else◌,
}

-- The class `Fast512BytesCircularBuffer`.
pub record Ring : Type 0 where
  pub buf : Bytes
  pub head : ℕ
  pub tail : ℕ

abbrev pub size : ℕ
size = 512

-- `x & Fast512BytesCircularBuffer_MASK`
abbrev pub masked : ℕ → ℕ
masked x = x % 512

-- `size_t` arithmetic.
abbrev pub add_size : ℕ → ℕ → ℕ
add_size a b = (a + b) % 2 ^ 64

abbrev pub sub_size : ℕ → ℕ → ℕ
sub_size a b = (a + 2 ^ 64 - b) % 2 ^ 64

unfoldable pub init : Ring → Ring
init r = record r { head = 0; tail = 0 }

unfoldable pub empty : Ring → Bool
empty r = r.head == r.tail

unfoldable pub full : Ring → Bool
full r = masked (add_size r.head 1) == masked r.tail

unfoldable pub len : Ring → ℕ
len r = sub_size r.head r.tail

unfoldable pub available : Ring → ℕ
available r = sub_size size (sub_size r.head r.tail)

unfoldable pub put : Ring → ℕ → Ring × Bool
unfolding full
put r item =
    if full r
    then (r, false)
    else (record r { buf = set r.buf (masked r.head) item; head = add_size r.head 1 }, true)

-- The byte that goes through `item`; `none` is the result false.
unfoldable pub get : Ring → Ring × Option ℕ
unfolding empty
get r =
    if empty r
    then (r, none)
    else (record r { tail = add_size r.tail 1 }, some (get_or r.buf (masked r.tail) 0))

-- The loop of `fillBuffer`, with the rounds left: the bytes that it writes to `buff`.
unfoldable pub fill_loop : ℕ → Ring → Ring × Bytes
fill_loop zero r = (r, [])
fill_loop (suc rounds) r =
    let (r', bytes) = fill_loop rounds (record r { tail = add_size r.tail 1 }) in
    (r', get_or r.buf (masked r.tail) 0 ∷ bytes)

-- `fillBuffer`, for a `length` that is not negative. What it returns is the number of bytes.
unfoldable pub fill_buffer : Ring → ℕ → Ring × Bytes
unfolding fill_loop len
fill_buffer r length =
    let c = len r in if ltb 0 c then fill_loop (if ltb length c then length else c) r else (r, [])

unfoldable pub reset : Ring → Ring
reset r = record r { head = r.tail }
