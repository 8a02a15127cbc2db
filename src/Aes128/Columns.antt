-- ===== src/Aes128/Columns.antt =====
-- `InverseMixColumns` undoes `MixColumns`, a column at a time.
use solarbot_update.Base.{
  ℕ, ◌<◌, ◌≡◌, refl, ap, ap₂, ◌∙◌, bit_xor, true, [], ◌∷◌, ◌==◌, all_below, agree_below,
}
use solarbot_update.Base.Bits.{bit_xor-lt, bit_xor_middle, bit_xor-zero, zero-bit_xor}
use solarbot_update.Aes128.{
  look_up, mul2, mul3, mul9, mul11, mul13, mul14, xor4, inverse_mix_column,
}
use solarbot_update.Aes128.Field.{
  IsLinear, mul2-IsLinear, mul3-IsLinear, mul9-IsLinear, mul11-IsLinear, mul13-IsLinear,
  mul14-IsLinear,
}

xor4-ap :
    {a b c d a' b' c' d' : ℕ} → a ≡ a' → b ≡ b' → c ≡ c' → d ≡ d' → xor4 a b c d ≡ xor4 a' b' c' d'
xor4-ap p q r s = ap₂ bit_xor (ap₂ bit_xor (ap₂ bit_xor p q) r) s

pub xor4-lt : (a b c d : ℕ) → a < 256 → b < 256 → c < 256 → d < 256 → xor4 a b c d < 256
xor4-lt a b c d ha hb hc hd =
    bit_xor-lt 8 (bit_xor (bit_xor a b) c) d
      (bit_xor-lt 8 (bit_xor a b) c (bit_xor-lt 8 a b ha hb) hc) hd

linear-xor4 :
    (f : ℕ → ℕ)
    → IsLinear f
    → (a b c d : ℕ) → a < 256
    → b < 256
    → c < 256
    → d < 256
    → f (xor4 a b c d) ≡ xor4 (f a) (f b) (f c) (f d)
linear-xor4 f l a b c d ha hb hc hd =
    l.additive (bit_xor (bit_xor a b) c) d
      (bit_xor-lt 8 (bit_xor a b) c (bit_xor-lt 8 a b ha hb) hc) hd
    ∙ ap (λ (t : ℕ). bit_xor t (f d))
        (l.additive (bit_xor a b) c (bit_xor-lt 8 a b ha hb) hc
          ∙ ap (λ (t : ℕ). bit_xor t (f c)) (l.additive a b ha hb))

-- The sum of four rows is the sum of the four columns.
xor4_transpose :
    (a b c d a' b' c' d' x y z w x' y' z' w' : ℕ)
    → xor4 (xor4 a b c d) (xor4 a' b' c' d') (xor4 x y z w) (xor4 x' y' z' w')
      ≡ xor4 (xor4 a a' x x') (xor4 b b' y y') (xor4 c c' z z') (xor4 d d' w w')
xor4_transpose a b c d a' b' c' d' x y z w x' y' z' w' =
    ap (λ (t : ℕ). bit_xor (bit_xor t (xor4 x y z w)) (xor4 x' y' z' w'))
      (add_row a b c d a' b' c' d')
    ∙ ap (λ (t : ℕ). bit_xor t (xor4 x' y' z' w'))
        (add_row (bit_xor a a') (bit_xor b b') (bit_xor c c') (bit_xor d d') x y z w)
    ∙ add_row (bit_xor (bit_xor a a') x) (bit_xor (bit_xor b b') y) (bit_xor (bit_xor c c') z)
        (bit_xor (bit_xor d d') w) x' y' z' w'
  where
    add_row :
        (p q r s p' q' r' s' : ℕ)
        → bit_xor (xor4 p q r s) (xor4 p' q' r' s')
          ≡ xor4 (bit_xor p p') (bit_xor q q') (bit_xor r r') (bit_xor s s')
    add_row p q r s p' q' r' s' =
        bit_xor_middle (bit_xor (bit_xor p q) r) s (bit_xor (bit_xor p' q') r') s'
        ∙ ap (λ (t : ℕ). bit_xor t (bit_xor s s'))
            (bit_xor_middle (bit_xor p q) r (bit_xor p' q') r'
              ∙ ap (λ (t : ℕ). bit_xor t (bit_xor r r')) (bit_xor_middle p q p' q'))

abbrev m2 : ℕ → ℕ
m2 = look_up mul2

abbrev m3 : ℕ → ℕ
m3 = look_up mul3

-- What each byte of the column adds to one row of the inverse.
module _ (f g h k : ℕ → ℕ) where
  abbrev first : ℕ → ℕ
  first x = xor4 (f (m2 x)) (g x) (h x) (k (m3 x))

  abbrev second : ℕ → ℕ
  second x = xor4 (f (m3 x)) (g (m2 x)) (h x) (k x)

  abbrev third : ℕ → ℕ
  third x = xor4 (f x) (g (m3 x)) (h (m2 x)) (k x)

  abbrev fourth : ℕ → ℕ
  fourth x = xor4 (f x) (g x) (h (m3 x)) (k (m2 x))

-- A row of the inverse on a mixed column, sorted by the bytes of the column.
row :
    {f g h k : ℕ → ℕ}
    → IsLinear f
    → IsLinear g
    → IsLinear h
    → IsLinear k
    → (a b c d : ℕ) → a < 256
    → b < 256
    → c < 256
    → d < 256
    → xor4
        (f (xor4 (m2 a) (m3 b) c d))
        (g (xor4 a (m2 b) (m3 c) d))
        (h (xor4 a b (m2 c) (m3 d)))
        (k (xor4 (m3 a) b c (m2 d)))
      ≡ xor4 (first f g h k a) (second f g h k b) (third f g h k c) (fourth f g h k d)
row {f} {g} {h} {k} lf lg lh lk a b c d ha hb hc hd =
    xor4-ap (linear-xor4 f lf (m2 a) (m3 b) c d (two a ha) (three b hb) hc hd)
      (linear-xor4 g lg a (m2 b) (m3 c) d ha (two b hb) (three c hc) hd)
      (linear-xor4 h lh a b (m2 c) (m3 d) ha hb (two c hc) (three d hd))
      (linear-xor4 k lk (m3 a) b c (m2 d) (three a ha) hb hc (two d hd))
    ∙ xor4_transpose (f (m2 a)) (f (m3 b)) (f c) (f d) (g a) (g (m2 b)) (g (m3 c)) (g d) (h a) (h b)
        (h (m2 c)) (h (m3 d)) (k (m3 a)) (k b) (k c) (k (m2 d))
  where
    two : (x : ℕ) → x < 256 → m2 x < 256
    two = mul2-IsLinear.closed

    three : (x : ℕ) → x < 256 → m3 x < 256
    three = mul3-IsLinear.closed

first-first :
    all_below 256 (λ x. first (look_up mul14) (look_up mul11) (look_up mul13) (look_up mul9) x == x)
    ≡ true
unfolding all_below mul2 mul3 mul9 mul11 mul13 mul14
first-first = refl

first_second :
    all_below 256
      (λ x. second (look_up mul14) (look_up mul11) (look_up mul13) (look_up mul9) x == 0)
    ≡ true
unfolding all_below mul2 mul3 mul9 mul11 mul13 mul14
first_second = refl

first_third :
    all_below 256 (λ x. third (look_up mul14) (look_up mul11) (look_up mul13) (look_up mul9) x == 0)
    ≡ true
unfolding all_below mul2 mul3 mul9 mul11 mul13 mul14
first_third = refl

first_fourth :
    all_below 256
      (λ x. fourth (look_up mul14) (look_up mul11) (look_up mul13) (look_up mul9) x == 0)
    ≡ true
unfolding all_below mul2 mul3 mul9 mul11 mul13 mul14
first_fourth = refl

second_first :
    all_below 256 (λ x. first (look_up mul9) (look_up mul14) (look_up mul11) (look_up mul13) x == 0)
    ≡ true
unfolding all_below mul2 mul3 mul9 mul11 mul13 mul14
second_first = refl

second-second :
    all_below 256
      (λ x. second (look_up mul9) (look_up mul14) (look_up mul11) (look_up mul13) x == x)
    ≡ true
unfolding all_below mul2 mul3 mul9 mul11 mul13 mul14
second-second = refl

second_third :
    all_below 256 (λ x. third (look_up mul9) (look_up mul14) (look_up mul11) (look_up mul13) x == 0)
    ≡ true
unfolding all_below mul2 mul3 mul9 mul11 mul13 mul14
second_third = refl

second_fourth :
    all_below 256
      (λ x. fourth (look_up mul9) (look_up mul14) (look_up mul11) (look_up mul13) x == 0)
    ≡ true
unfolding all_below mul2 mul3 mul9 mul11 mul13 mul14
second_fourth = refl

third_first :
    all_below 256 (λ x. first (look_up mul13) (look_up mul9) (look_up mul14) (look_up mul11) x == 0)
    ≡ true
unfolding all_below mul2 mul3 mul9 mul11 mul13 mul14
third_first = refl

third_second :
    all_below 256
      (λ x. second (look_up mul13) (look_up mul9) (look_up mul14) (look_up mul11) x == 0)
    ≡ true
unfolding all_below mul2 mul3 mul9 mul11 mul13 mul14
third_second = refl

third-third :
    all_below 256 (λ x. third (look_up mul13) (look_up mul9) (look_up mul14) (look_up mul11) x == x)
    ≡ true
unfolding all_below mul2 mul3 mul9 mul11 mul13 mul14
third-third = refl

third_fourth :
    all_below 256
      (λ x. fourth (look_up mul13) (look_up mul9) (look_up mul14) (look_up mul11) x == 0)
    ≡ true
unfolding all_below mul2 mul3 mul9 mul11 mul13 mul14
third_fourth = refl

fourth_first :
    all_below 256 (λ x. first (look_up mul11) (look_up mul13) (look_up mul9) (look_up mul14) x == 0)
    ≡ true
unfolding all_below mul2 mul3 mul9 mul11 mul13 mul14
fourth_first = refl

fourth_second :
    all_below 256
      (λ x. second (look_up mul11) (look_up mul13) (look_up mul9) (look_up mul14) x == 0)
    ≡ true
unfolding all_below mul2 mul3 mul9 mul11 mul13 mul14
fourth_second = refl

fourth_third :
    all_below 256 (λ x. third (look_up mul11) (look_up mul13) (look_up mul9) (look_up mul14) x == 0)
    ≡ true
unfolding all_below mul2 mul3 mul9 mul11 mul13 mul14
fourth_third = refl

fourth-fourth :
    all_below 256
      (λ x. fourth (look_up mul11) (look_up mul13) (look_up mul9) (look_up mul14) x == x)
    ≡ true
unfolding all_below mul2 mul3 mul9 mul11 mul13 mul14
fourth-fourth = refl

-- `InverseMixColumns` gives back the bytes of a column that `MixColumns` has mixed.
module _ (a b c d : ℕ) (ha : a < 256) (hb : b < 256) (hc : c < 256) (hd : d < 256) where
  unmix_first :
      xor4
        (look_up mul14 (xor4 (m2 a) (m3 b) c d))
        (look_up mul11 (xor4 a (m2 b) (m3 c) d))
        (look_up mul13 (xor4 a b (m2 c) (m3 d)))
        (look_up mul9 (xor4 (m3 a) b c (m2 d)))
      ≡ a
  unmix_first =
      row mul14-IsLinear mul11-IsLinear mul13-IsLinear mul9-IsLinear a b c d ha hb hc hd
      ∙ xor4-ap
          (agree_below 256 (first (look_up mul14) (look_up mul11) (look_up mul13) (look_up mul9))
            (λ x. x) a first-first ha)
          (agree_below 256 (second (look_up mul14) (look_up mul11) (look_up mul13) (look_up mul9))
            (λ x. 0) b first_second hb)
          (agree_below 256 (third (look_up mul14) (look_up mul11) (look_up mul13) (look_up mul9))
            (λ x. 0) c first_third hc)
          (agree_below 256 (fourth (look_up mul14) (look_up mul11) (look_up mul13) (look_up mul9))
            (λ x. 0) d first_fourth hd)
      ∙ (ap (λ (t : ℕ). bit_xor (bit_xor t 0) 0) (bit_xor-zero a)
          ∙ ap (λ (t : ℕ). bit_xor t 0) (bit_xor-zero a)
          ∙ bit_xor-zero a)

  unmix_second :
      xor4
        (look_up mul9 (xor4 (m2 a) (m3 b) c d))
        (look_up mul14 (xor4 a (m2 b) (m3 c) d))
        (look_up mul11 (xor4 a b (m2 c) (m3 d)))
        (look_up mul13 (xor4 (m3 a) b c (m2 d)))
      ≡ b
  unmix_second =
      row mul9-IsLinear mul14-IsLinear mul11-IsLinear mul13-IsLinear a b c d ha hb hc hd
      ∙ xor4-ap
          (agree_below 256 (first (look_up mul9) (look_up mul14) (look_up mul11) (look_up mul13))
            (λ x. 0) a second_first ha)
          (agree_below 256 (second (look_up mul9) (look_up mul14) (look_up mul11) (look_up mul13))
            (λ x. x) b second-second hb)
          (agree_below 256 (third (look_up mul9) (look_up mul14) (look_up mul11) (look_up mul13))
            (λ x. 0) c second_third hc)
          (agree_below 256 (fourth (look_up mul9) (look_up mul14) (look_up mul11) (look_up mul13))
            (λ x. 0) d second_fourth hd)
      ∙ (ap (λ (t : ℕ). bit_xor (bit_xor t 0) 0) (zero-bit_xor b)
          ∙ ap (λ (t : ℕ). bit_xor t 0) (bit_xor-zero b)
          ∙ bit_xor-zero b)

  unmix_third :
      xor4
        (look_up mul13 (xor4 (m2 a) (m3 b) c d))
        (look_up mul9 (xor4 a (m2 b) (m3 c) d))
        (look_up mul14 (xor4 a b (m2 c) (m3 d)))
        (look_up mul11 (xor4 (m3 a) b c (m2 d)))
      ≡ c
  unmix_third =
      row mul13-IsLinear mul9-IsLinear mul14-IsLinear mul11-IsLinear a b c d ha hb hc hd
      ∙ xor4-ap
          (agree_below 256 (first (look_up mul13) (look_up mul9) (look_up mul14) (look_up mul11))
            (λ x. 0) a third_first ha)
          (agree_below 256 (second (look_up mul13) (look_up mul9) (look_up mul14) (look_up mul11))
            (λ x. 0) b third_second hb)
          (agree_below 256 (third (look_up mul13) (look_up mul9) (look_up mul14) (look_up mul11))
            (λ x. x) c third-third hc)
          (agree_below 256 (fourth (look_up mul13) (look_up mul9) (look_up mul14) (look_up mul11))
            (λ x. 0) d third_fourth hd)
      ∙ (ap (λ (t : ℕ). bit_xor t 0) (zero-bit_xor c) ∙ bit_xor-zero c)

  unmix_fourth :
      xor4
        (look_up mul11 (xor4 (m2 a) (m3 b) c d))
        (look_up mul13 (xor4 a (m2 b) (m3 c) d))
        (look_up mul9 (xor4 a b (m2 c) (m3 d)))
        (look_up mul14 (xor4 (m3 a) b c (m2 d)))
      ≡ d
  unmix_fourth =
      row mul11-IsLinear mul13-IsLinear mul9-IsLinear mul14-IsLinear a b c d ha hb hc hd
      ∙ xor4-ap
          (agree_below 256 (first (look_up mul11) (look_up mul13) (look_up mul9) (look_up mul14))
            (λ x. 0) a fourth_first ha)
          (agree_below 256 (second (look_up mul11) (look_up mul13) (look_up mul9) (look_up mul14))
            (λ x. 0) b fourth_second hb)
          (agree_below 256 (third (look_up mul11) (look_up mul13) (look_up mul9) (look_up mul14))
            (λ x. 0) c fourth_third hc)
          (agree_below 256 (fourth (look_up mul11) (look_up mul13) (look_up mul9) (look_up mul14))
            (λ x. x) d fourth-fourth hd)
      ∙ (zero-bit_xor d)

  pub inverse-mix_column :
      inverse_mix_column
        (xor4 (m2 a) (m3 b) c d)
        (xor4 a (m2 b) (m3 c) d)
        (xor4 a b (m2 c) (m3 d))
        (xor4 (m3 a) b c (m2 d))
      ≡ a ∷ b ∷ c ∷ d ∷ []
  unfolding inverse_mix_column
  inverse-mix_column =
      ap₂ ◌∷◌ unmix_first
        (ap₂ ◌∷◌ unmix_second (ap₂ ◌∷◌ unmix_third (ap (λ (x : ℕ). x ∷ []) unmix_fourth)))
