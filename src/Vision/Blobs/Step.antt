-- ===== src/Vision/Blobs/Step.antt =====
-- The labelling of one pixel: its blob, new or grown, and the joined blobs.
use final.Base.{
  ℕ, ◌+◌, ◌-◌, ◌*◌, ◌^◌, ◌≤◌, ◌<◌, ◌≡◌, refl, arith, ◌==◌, ltb, false, not, ◌&&◌, ◌⊎◌, inl, inr,
  Bool-cases, Yields, yields, Yields-bind, ==_iff,
}
use final.Vision.Image.{Image, read-eq, index-lt}
use final.Vision.Blobs.{
  Table, Labels, min_label, lower, start_blob, grow_blob, join, new_label, extend_label,
  active_label,
}
use final.Vision.Blobs.Labelled.{
  entry-eq, set_entry-eq, Blobs, Blobs-start, Blobs-grow, Blobs-relabel,
}

-- The sizes of a run: `room` entries for blobs, and sums of coordinates of `room` pixels that fit.
pub record Fits (width height room : ℕ) : Type 0 where
  pub across : width * room ≤ 2 ^ 32
  pub down : height * room ≤ 2 ^ 32

-- Everything but the output.
pub record Counted (width height room active : ℕ) (s : Labels) : Type 0 where
  pub entries : (let t = s.blobs in t.entries) ≡ room
  pub first : 1 ≤ s.label_counter
  pub few : s.label_counter ≤ active + 1
  pub blobs : Blobs width height s.label_counter active s.blobs

pub Counted-output :
    {width height room active : ℕ} {s : Labels} (output : Image)
    → Counted width height room active s
    → Counted width height room active (record s { output = output })
Counted-output output m = record {
  entries = m.entries;
  first = m.first;
  few = m.few;
  blobs = m.blobs;
}

-- A label was found, and the output is still `output`.
pub record Found (width height room active : ℕ) (s : Labels) (found : ℕ × Labels) : Type 0 where
  pub known : found.0 < (let u = found.1 in u.label_counter)
  pub more : s.label_counter ≤ (let u = found.1 in u.label_counter)
  pub output : (let u = found.1 in u.output) ≡ s.output
  pub counted : Counted width height room active found.1

join-Blobs :
    {width height count active : ℕ} {t : Table} (lbl min : ℕ)
    → Blobs width height count active t
    → lbl < t.entries
    → 1 ≤ min
    → (1 ≤ lbl → min ≤ lbl)
    → Yields (λ u. Blobs width height count active u × (u.entries ≡ t.entries)) (join lbl min t)
unfolding join
join-Blobs {t} lbl min m p q r = elim (Bool-cases (lbl == min)) [
  | inl y ↦ rw y (yields (m, refl))
  | inr o ↦
      rw (o, entry-eq t lbl p, set_entry-eq t lbl (record (t.blob lbl) { label = min }) p)
        (yields (Blobs-relabel m lbl min q r, refl))
]

lower-le : (x m : ℕ) → (lower x m ≤ m) × (1 ≤ x → lower x m ≤ x)
lower-le x m = (ground arith, λ p. ground arith)

-- The sentinel, or a label below `n`.
abbrev IsLabel : ℕ → ℕ → Type 0
IsLabel n m = (m ≡ 255) ⊎ ((1 ≤ m) × (m < n))

lower-IsLabel : (n x m : ℕ) → x < n → IsLabel n m → IsLabel n (lower x m)
lower-IsLabel n x m p q = elim (Bool-cases (not (x == 0) && ltb x m)) [
  | inl y ↦ let positive : 1 ≤ x = ground arith in rw y (inr (positive, p))
  | inr o ↦ rw o q
]

-- No label that is there is below the least one.
min_label-le :
    (a b c d : ℕ)
    → (1 ≤ a → min_label a b c d ≤ a)
      × (1 ≤ b → min_label a b c d ≤ b)
      × (1 ≤ c → min_label a b c d ≤ c)
      × (1 ≤ d → min_label a b c d ≤ d)
unfolding min_label
min_label-le a b c d =
    let (_, at_a) = lower-le a 255 in
    let (under_a, at_b) = lower-le b (lower a 255) in
    let (under_b, at_c) = lower-le c (lower b (lower a 255)) in
    let (under_c, at_d) = lower-le d (lower c (lower b (lower a 255))) in
    (
      λ p. omega (arith, at_a p, under_a, under_b, under_c),
      λ p. omega (arith, at_b p, under_b, under_c),
      λ p. omega (arith, at_c p, under_c),
      at_d,
    )

min_label-IsLabel : (a b c d n : ℕ) → a < n → b < n → c < n → d < n → IsLabel n (min_label a b c d)
unfolding min_label
min_label-IsLabel a b c d n p q r s =
    lower-IsLabel n d _ s
      (lower-IsLabel n c _ r (lower-IsLabel n b _ q (lower-IsLabel n a 255 p (inl refl))))

-- The labels of the four neighbours are in use, and `min` is the least that is there.
record Neighbours (n lbl_a lbl_b lbl_c lbl_d min : ℕ) : Type 0 where
  pub lt_a : lbl_a < n
  pub lt_b : lbl_b < n
  pub lt_c : lbl_c < n
  pub lt_d : lbl_d < n
  pub positive : 1 ≤ min
  pub lt_min : min < n
  pub le_a : 1 ≤ lbl_a → min ≤ lbl_a
  pub le_b : 1 ≤ lbl_b → min ≤ lbl_b
  pub le_c : 1 ≤ lbl_c → min ≤ lbl_c
  pub le_d : 1 ≤ lbl_d → min ≤ lbl_d

neighbours :
    (a b c d n : ℕ)
    → a < n
    → b < n
    → c < n
    → d < n
    → (min_label a b c d == 255) ≡ false
    → Neighbours n a b c d (min_label a b c d)
neighbours a b c d n p q r s o =
    let (le_a, le_b, le_c, le_d) = min_label-le a b c d in
    elim (min_label-IsLabel a b c d n p q r s) [
      | inl e ↦ absurd (cc (o, (==_iff (min_label a b c d) 255).1 e))
      | inr (positive, lt_min) ↦ record {
        lt_a = p;
        lt_b = q;
        lt_c = r;
        lt_d = s;
        positive = positive;
        lt_min = lt_min;
        le_a = le_a;
        le_b = le_b;
        le_c = le_c;
        le_d = le_d;
      }
    ]

module _ {width height room active : ℕ} (fits : Fits width height room) (left : active + 1 ≤ room)
    (row col : ℕ) (a : 1 ≤ row) (b : row + 1 < height) (c : 1 ≤ col) (d : col + 1 < width) where
  new_label-Found :
      {s : Labels}
      → active + 1 < room
      → Counted width height room active s
      → Yields (Found width height room (active + 1) s) (new_label row col s)
  unfolding new_label
  new_label-Found {s} p m =
      let t = s.blobs in
      let n = s.label_counter in
      let inside : n < t.entries = omega (arith, m.few, m.entries) in
      rw (entry-eq t n inside, set_entry-eq t n (start_blob n row col (t.blob n)) inside)
        (yields (record {
          known = omega arith;
          more = omega arith;
          output = refl;
          counted = record {
            entries = m.entries;
            first = omega arith;
            few = omega (arith, m.few);
            blobs = Blobs-start m.blobs row col m.first a b c d;
          };
        }))

  extend_label-Found :
      {s : Labels} (lbl_a lbl_b lbl_c lbl_d min : ℕ)
      → Neighbours s.label_counter lbl_a lbl_b lbl_c lbl_d min
      → Counted width height room active s
      → Yields
          (Found width height room (active + 1) s)
          (extend_label row col lbl_a lbl_b lbl_c lbl_d min s)
  unfolding extend_label
  extend_label-Found {s} lbl_a lbl_b lbl_c lbl_d min k m =
      let t = s.blobs in
      let n = s.label_counter in
      let below : n ≤ t.entries = omega (arith, m.few, m.entries) in
      let grown = grow_blob row col (t.blob min) in
      rw
        (
          entry-eq t min (omega (arith, k.lt_min)),
          set_entry-eq t min grown (omega (arith, k.lt_min)),
        )
        (Yields-bind
          (join-Blobs lbl_a min
            (Blobs-grow m.blobs min row col room k.positive k.lt_min left fits.across fits.down a b
              c d)
            (omega (arith, k.lt_a)) k.positive k.le_a)
          λ u₁ (m₁, e₁).
            Yields-bind (join-Blobs lbl_b min m₁ (omega (arith, k.lt_b, e₁)) k.positive k.le_b)
              λ u₂ (m₂, e₂).
                Yields-bind
                  (join-Blobs lbl_c min m₂ (omega (arith, k.lt_c, e₁, e₂)) k.positive k.le_c)
                  λ u₃ (m₃, e₃).
                    Yields-bind
                      (join-Blobs lbl_d min m₃ (omega (arith, k.lt_d, e₁, e₂, e₃)) k.positive
                        k.le_d)
                      λ u₄ (m₄, e₄). yields (record {
                        known = k.lt_min;
                        more = omega arith;
                        output = refl;
                        counted = record {
                          entries = omega (arith, e₁, e₂, e₃, e₄, m.entries);
                          first = m.first;
                          few = omega (arith, m.few);
                          blobs = m₄;
                        };
                      }))

  pub active_label-Found :
      {s : Labels}
      → active + 1 < room
      → (let o = s.output in o.size) ≡ height * width
      → ((k : ℕ) → (let o = s.output in o.cells k) < s.label_counter)
      → Counted width height room active s
      → Yields (Found width height room (active + 1) s) (active_label width row col s)
  unfolding active_label
  active_label-Found {s} more size cells m =
      let o = s.output in
      let up : (row - 1) * width + (col + 1) < height * width =
        index-lt width height (row - 1) (col + 1) (omega arith) (omega arith) in
      let here : row * width + (col - 1) < height * width =
        index-lt width height row (col - 1) (omega arith) (omega arith) in
      let lbl_a = o.cells ((row - 1) * width + (col - 1)) in
      let lbl_b = o.cells ((row - 1) * width + col) in
      let lbl_c = o.cells ((row - 1) * width + (col + 1)) in
      let lbl_d = o.cells (row * width + (col - 1)) in
      rw
        (
          read-eq o ((row - 1) * width + (col - 1)) (omega (arith, up, size)),
          read-eq o ((row - 1) * width + col) (omega (arith, up, size)),
          read-eq o ((row - 1) * width + (col + 1)) (omega (arith, up, size)),
          read-eq o (row * width + (col - 1)) (omega (arith, here, size)),
        )
        (elim (Bool-cases (min_label lbl_a lbl_b lbl_c lbl_d == 255)) [
          | inl y ↦ rw y (new_label-Found more m)
          | inr o ↦ rw o (
              extend_label-Found lbl_a lbl_b lbl_c lbl_d _
                (neighbours lbl_a lbl_b lbl_c lbl_d s.label_counter (cells _) (cells _) (cells _)
                  (cells _) o)
                m)
        ])
