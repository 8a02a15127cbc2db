-- ===== src/Navigator/Index.antt =====
-- The waypoint that the rover heads for is always one of those of the file.
use solarbot_update.Base.{
  ℕ, zero, suc, ◌<◌, ◌≡◌, ◌≢◌, refl, sym, ap, ◌∙◌, arith, Bool, true, false, Bool-cases, inl, inr,
  ◌⊎◌, Option, some, List, [], ◌∷◌, Bytes, All, length, if◌then◌else◌, ℤ, pos, negsuc, ◌+ℤ◌, ltb_ℤ,
  ◌==◌,
}
use solarbot_update.Text.{◌>>=◌}
use solarbot_update.Double.{Double}
use solarbot_update.Geodesy.{distance_between}
use solarbot_update.Navigator.{Navigator, Waypoint, is_none, Fix, fix_point}
use solarbot_update.Navigator.Motion.{goto_waypoint}
use solarbot_update.Navigator.Nearest.{find_closest_path_point}
use solarbot_update.Navigator.Next.{
  find_start, approach, next_waypoint, get_waypoint, advance, goto_next_waypoint,
}
use solarbot_update.Navigator.Load.{take_line, take_lines, load_waypoints}
use solarbot_update.Navigator.Kept.{either, Kept, goto_waypoint-Kept}
use solarbot_update.Navigator.Known.{InRange, find_closest-Known}

module _ (R : Double) where
  open R use {Value, less, of_int, truncate, dbl_max}

  -- While the rover looks for the path it may have no waypoint yet; then it has one.
  pub record Ready (index : ℤ) (points : List (Waypoint Value)) (size : ℕ) (finding_path : Bool)
      : Type 0 where
    pub sized : size ≡ length points
    pub some_waypoint : 0 < size
    pub finding : (finding_path ≡ true) → (is_none index ≡ true) ⊎ InRange index size
    pub following : finding_path ≡ false → InRange index size

  abbrev pub IsValid : Navigator Value → Type 0
  IsValid n = Ready n.waypoints_index n.waypoints n.waypoints_size n.finding_path

  -- From there the path has a closest point.
  abbrev pub Finds : List (Waypoint Value) → Fix R → Type 0
  Finds points w =
      is_none (find_closest_path_point R (fix_point R w) (negsuc 0) points).start_waypoint_index
      ≡ false

  get_waypoint-InRange :
      (i : ℤ) (points : List (Waypoint Value))
      → InRange i (length points)
      → (p : Waypoint Value) × (get_waypoint R i points ≡ some p)
  unfolding get_waypoint
  get_waypoint-InRange (negsuc k) points h = absurd h
  get_waypoint-InRange (pos k) [] h = absurd (omega arith)
  get_waypoint-InRange (pos zero) (p ∷ points) h = (p, refl)
  get_waypoint-InRange (pos (suc k)) (p ∷ points) h =
      get_waypoint-InRange (pos k) points (omega arith)

  InRange-Ready :
      (index : ℤ) (points : List (Waypoint Value)) (size : ℕ) (finding_path : Bool)
      → size ≡ length points
      → 0 < size
      → InRange index size
      → Ready index points size finding_path
  InRange-Ready index points size finding_path e h r = record {
    sized = e;
    some_waypoint = h;
    finding = λ _. inr r;
    following = λ _. r;
  }

  succ-InRange :
      (i : ℤ) (size : ℕ)
      → InRange i size
      → ltb_ℤ (i +ℤ pos 1) (pos size) ≡ true
      → InRange (i +ℤ pos 1) size
  unfolding ◌+ℤ◌
  succ-InRange (pos k) size h e = ground arith
  succ-InRange (negsuc k) size h e = absurd h

  next_waypoint-IsValid :
      (n : Navigator Value)
      → IsValid n
      → InRange n.waypoints_index n.waypoints_size
      → IsValid (next_waypoint R n).0 × ((next_waypoint R n).0.waypoints ≡ n.waypoints)
  unfolding next_waypoint
  next_waypoint-IsValid n v h =
      let P : Navigator Value × ℤ → Type 0 = λ x. IsValid x.0 × (x.0.waypoints ≡ n.waypoints) in
      either P _ _ _
        (λ e. (
          InRange-Ready _ _ _ _ v.sized v.some_waypoint
              (succ-InRange n.waypoints_index n.waypoints_size h e),
          refl,
        ))
        (λ _.
          either P n.loop_navigate _ _
            (λ _. (InRange-Ready _ _ _ _ v.sized v.some_waypoint v.some_waypoint, refl))
            (λ _. (v, refl)))

  Kept-IsValid : (n n' : Navigator Value) → Kept R n n' → IsValid n → IsValid n'
  Kept-IsValid n n' (index, points, size, loop, finding) v =
      rw index (rw points (rw size (rw finding v)))

  -- A waypoint to head for, among the same waypoints.
  abbrev Heads : Navigator Value → Navigator Value → Type 0
  Heads n n' =
      InRange n'.waypoints_index n.waypoints_size
      × (n'.waypoints_size ≡ n.waypoints_size)
      × (n'.waypoints ≡ n.waypoints)

  is_none-eq : (i : ℤ) → is_none i ≡ true → i ≡ negsuc 0
  is_none-eq (pos k) e = cc
  is_none-eq (negsuc k) e = ground arith

  find_start-Heads :
      (w : Fix R) (n : Navigator Value)
      → IsValid n
      → is_none n.waypoints_index ≡ true
      → Finds n.waypoints w
      → Heads n (find_start R w n)
  unfolding find_start
  find_start-Heads w n v e found =
      let c = find_closest_path_point R (fix_point R w) n.waypoints_index n.waypoints in
      let searched : is_none c.start_waypoint_index ≡ false =
        rw (is_none-eq n.waypoints_index e) found in
      (
        elim (find_closest-Known R (fix_point R w) n.waypoints_index n.waypoints) [
          | inl old ↦ absurd (cc (sym searched ∙ ap is_none old ∙ e))
          | inr r ↦ rw v.sized r
        ],
        refl,
        refl,
      )

  Heads-IsValid : (n n' : Navigator Value) → IsValid n → Heads n n' → IsValid n'
  Heads-IsValid n n' v (r, size, points) =
      InRange-Ready _ _ _ _ (size ∙ v.sized ∙ ap length (sym points))
        (omega (arith, v.some_waypoint)) (rw size r)

  Kept-Heads : (n n1 n2 : Navigator Value) → Heads n n1 → Kept R n1 n2 → Heads n n2
  Kept-Heads n n1 n2 (r, size, points) (index', points', size', loop', finding') =
      (rw index' r, size' ∙ size, points' ∙ points)

  start-Heads :
      (w : Fix R) (n : Navigator Value)
      → IsValid n
      → n.finding_path ≡ true
      → Finds n.waypoints w
      → Heads n (if is_none n.waypoints_index then find_start R w n else n)
  start-Heads w n v f found =
      either (Heads n) (is_none n.waypoints_index) _ _ (λ e. find_start-Heads w n v e found)
        (λ e. elim (v.finding f) [ inl p ↦ absurd (cc (sym e ∙ p)) | inr r ↦ (r, refl, refl) ])

  approach-Heads :
      (w : Fix R) (n : Navigator Value)
      → IsValid n
      → n.finding_path ≡ true
      → Finds n.waypoints w
      → Heads n (approach R w n).0
  unfolding approach
  approach-Heads w n v f found =
      let n1 = if is_none n.waypoints_index then find_start R w n else n in
      let near =
        less
          (distance_between R w.latitude w.longitude n1.start_waypoint.latitude
            n1.start_waypoint.longitude)
          (of_int (pos 3)) in
      let slow = record n1 { start_waypoint = record n1.start_waypoint { speed = pos 300 } } in
      let n2 = if near then slow else n1 in
      let started = start-Heads w n v f found in
      let h2 = either (Heads n) near slow n1 (λ _. started) (λ _. started) in
      Kept-Heads n n2 (goto_waypoint R w n2.start_waypoint n2).0 h2
        (goto_waypoint-Kept R w n2.start_waypoint n2)

  advance-IsValid :
      (w : Fix R) (p : Waypoint Value) (n : Navigator Value)
      → IsValid n
      → InRange n.waypoints_index n.waypoints_size
      → IsValid (advance R w p n).0 × ((advance R w p n).0.waypoints ≡ n.waypoints)
  unfolding advance
  advance-IsValid w p n v r =
      let n' = (goto_waypoint R w p n).0 in
      let kept = goto_waypoint-Kept R w p n in
      let v' : IsValid n' = Kept-IsValid n n' kept v in
      let next = next_waypoint-IsValid n' v' (rw kept.0 (rw kept.2 r)) in
      either (λ (x : Navigator Value × ℤ). IsValid x.0 × (x.0.waypoints ≡ n.waypoints))
        (goto_waypoint R w p n).1 (n', pos 0) (next_waypoint R n') (λ _. (v', kept.1))
        (λ _. (next.0, next.1 ∙ kept.1))

  -- One call keeps the state valid and answers.
  goto_next_waypoint-IsValid :
      (w : Fix R) (n : Navigator Value)
      → IsValid n
      → Finds n.waypoints w
      → (n' : Navigator Value) × (result : ℤ) × (goto_next_waypoint R w n ≡ some (n', result))
        × IsValid n'
        × (n'.waypoints ≡ n.waypoints)
  unfolding goto_next_waypoint
  goto_next_waypoint-IsValid w n v found =
      let rest = get_waypoint R n.waypoints_index n.waypoints >>= λ p. some (advance R w p n) in
      elim (Bool-cases n.finding_path) [
        | inl f ↦
            let h = approach-Heads w n v f found in
            (
              (approach R w n).0,
              (approach R w n).1,
              ap (λ b. if b then some (approach R w n) else rest) f,
              Heads-IsValid n (approach R w n).0 v h,
              h.2,
            )
        | inr f ↦
            let (p, e) =
              get_waypoint-InRange n.waypoints_index n.waypoints (rw (← v.sized) (v.following f)) in
            let kept = advance-IsValid w p n v (v.following f) in
            (
              (advance R w p n).0,
              (advance R w p n).1,
              ap (λ b. if b then some (approach R w n) else rest) f
                  ∙ ap (λ o. o >>= λ q. some (advance R w q n)) e,
              kept.0,
              kept.1,
            )
      ]

  -- A call of the main loop after another.
  unfoldable pub goto_all : List (Fix R) → Navigator Value → Option (Navigator Value)
  goto_all [] n = some n
  goto_all (w ∷ ways) n = do (n', result) ← goto_next_waypoint R w n; goto_all ways n'

  goto_all-IsValid :
      (ways : List (Fix R)) (n : Navigator Value)
      → IsValid n
      → All (Finds n.waypoints) ways
      → (n' : Navigator Value) × (goto_all ways n ≡ some n') × IsValid n'
  unfolding goto_all
  goto_all-IsValid [] n v h = (n, refl, v)
  goto_all-IsValid (w ∷ ways) n v h =
      let (n1, result, e, v1, points) = goto_next_waypoint-IsValid w n v h.0 in
      let (n2, e2, v2) = goto_all-IsValid ways n1 v1 (rw points h.1) in (n2, rw e e2, v2)

  -- A line that names no waypoint to start by.
  abbrev pub NoStart : Bytes → Type 0
  NoStart [] = Unit
  NoStart (c ∷ cs) = c ≢ b'S'

  abbrev Searching : Navigator Value → Type 0
  Searching n = (n.waypoints_index ≡ negsuc 0) × (n.finding_path ≡ true)

  take_line-Searching :
      (line : Bytes) (n : Navigator Value) (latitude longitude : Value)
      → NoStart line
      → Searching n
      → Searching (take_line R line (n, latitude, longitude)).0
  unfolding take_line
  take_line-Searching [] n latitude longitude h s = s
  take_line-Searching (c ∷ cs) n latitude longitude h s =
      let P : Navigator Value × Value × Value → Type 0 = λ x. Searching x.0 in
      either P (c == b'P') _ _ (λ _. s)
        (λ _.
          either P (c == b'S') _ _ (λ e. absurd (h (ground arith)))
            (λ _. either P (c == b'L') _ _ (λ _. s) (λ _. s)))

  take_lines-Searching :
      (lines : List Bytes) (state : Navigator Value × Value × Value)
      → All NoStart lines
      → Searching state.0
      → Searching (take_lines R lines state).0
  unfolding take_lines
  take_lines-Searching [] state h s = s
  take_lines-Searching (line ∷ lines) state h s =
      take_lines-Searching lines _ h.1 (take_line-Searching line state.0 state.1 state.2 h.0 s)

  load_waypoints-IsValid :
      (lines : List Bytes) (n : Navigator Value)
      → All NoStart lines
      → 0 < (load_waypoints R (some lines) n).0.waypoints_size
      → IsValid (load_waypoints R (some lines) n).0
  unfolding load_waypoints
  load_waypoints-IsValid lines n h le =
      let searching =
        take_lines-Searching lines
          (
            record n {
              waypoints_index = negsuc 0;
              waypoints_size = 0;
              waypoints = [];
              loop_navigate = false;
              finding_path = true;
            },
            of_int (pos 0),
            of_int (pos 0),
          )
          h (refl, refl) in
      record {
        sized = refl;
        some_waypoint = le;
        finding = λ _. inl (ap is_none searching.0);
        following = λ e. absurd (cc (sym e ∙ searching.1));
      }

  -- After a file with at least one waypoint and no line `S`, the rover can go from waypoint to waypoint
  -- for as many calls as there may be, where the path has a closest point from wherever it is: every call answers,
  -- for none reads outside the waypoints, and in the end too the state has a waypoint of the file or
  -- none while it looks for the path.
  pub goto_all-load_waypoints :
      (lines : List Bytes) (n : Navigator Value) (ways : List (Fix R))
      → All NoStart lines
      → 0 < (load_waypoints R (some lines) n).0.waypoints_size
      → All (Finds (load_waypoints R (some lines) n).0.waypoints) ways
      → (n' : Navigator Value) × (goto_all ways (load_waypoints R (some lines) n).0 ≡ some n')
        × IsValid n'
  goto_all-load_waypoints lines n ways h le found =
      goto_all-IsValid ways (load_waypoints R (some lines) n).0
        (load_waypoints-IsValid lines n h le) found
