-- ===== src/Vision/Detect/Merge.antt =====
-- The merging of blobs: no mass is lost, and each merged blob has its centroid in its box.
use native.Mathlib.Nat.{le-div_iff_mul-le, div-lt_iff_lt-mul}
use final.Base.{
  ℕ, zero, suc, ◌+◌, ◌-◌, ◌*◌, ◌/◌, ◌≤◌, ◌<◌, ◌≡◌, ◌≢◌, refl, sym, ap, ◌∙◌, arith, some, ◌==◌,
  if◌then◌else◌, Bool-cases, inl, inr, update-all, update_self, update_other, Yields, yields,
  Yields-bind, ==_iff, ◌>>=◌, not_eq,
}
use final.Base.Sums.{total, total-ext, total-differ, total-next, le-total}
use final.Vision.Image.{divide-eq}
use final.Vision.Blobs.{Blob, Table, entry, set_entry}
use final.Vision.Blobs.Axis.{Axis, Axis-join}
use final.Vision.Blobs.Labelled.{
  entry-eq, set_entry-eq, with_entry, Blobs, Entry, Sound, masses, mass_at,
}
use final.Vision.Blobs.Step.{Fits}
use final.Vision.Blobs.Redirect.{label_at}
use final.Vision.Detect.{
  MergeState, absorb, consolidate, record_blob, merge_blob, merge_down, merge_blobs,
}

-- 1 for a label that points to itself.
abbrev pub root_at : Table → ℕ → ℕ
root_at t zero = 0
root_at t (suc i) = if label_at t (suc i) == suc i then 1 else 0

-- Entry `k` of the list of merged blobs.
pub record Listed (width height k : ℕ) (b : Blob) : Type 0 where
  pub label : b.label ≡ k
  pub sound : Sound width height b
  pub left : b.x_min ≤ b.centroid_x
  pub right : b.centroid_x ≤ b.x_max
  pub top : b.y_min ≤ b.centroid_y
  pub bottom : b.centroid_y ≤ b.y_max

-- The labels above `i` are merged; `u` is the table before.
pub record Merging (stack : ℕ → Blob) (width height count active : ℕ) (u : Table) (i : ℕ)
    (s : MergeState) : Type 0 where
  pub entries : (let t = s.blobs in t.entries) ≡ u.entries
  pub labels : (j : ℕ) → label_at s.blobs j ≡ label_at u j
  pub origin : mass_at s.blobs 0 ≡ 0
  pub each : (j : ℕ) → 1 ≤ j → j ≤ i → Entry width height j (let t = s.blobs in t.blob j)
  pub room : (let c = s.consolidated_blobs in c.entries) ≡ count
  pub few : s.num_blobs + i < count
  pub listed :
      (k : ℕ) → k < s.num_blobs → Listed width height k (let c = s.consolidated_blobs in c.blob k)
  pub untouched : (k : ℕ) → s.num_blobs ≤ k → (let c = s.consolidated_blobs in c.blob k) ≡ stack k
  pub mass : masses s.blobs (i + 1) + masses s.consolidated_blobs s.num_blobs ≡ active
  pub roots : total (root_at u) (i + 1) + s.num_blobs ≡ total (root_at u) count

-- The centroid along one axis.
mean :
    (size lo hi mass sum : ℕ)
    → 0 < mass
    → Axis size lo hi mass sum
    → (lo ≤ sum / mass) × (sum / mass ≤ hi)
mean size lo hi mass sum p a =
    let above : sum < suc hi * mass = grind (arith, a.high) in
    let high : sum / mass < suc hi = (div-lt_iff_lt-mul p).1 above in
    ((le-div_iff_mul-le p).1 a.low, omega arith)

total-last : (f : ℕ → ℕ) (i : ℕ) → total f (suc i + 1) ≡ total f (i + 1) + f (suc i)
total-last f i = let same : i + 1 ≡ suc i = omega arith in rw same (total-next f (suc i))

-- A blob behind the list adds its mass.
masses-with_entry :
    (t : Table) (k : ℕ) (b : Blob) → masses (with_entry t k b) (k + 1) ≡ masses t k + b.mass
masses-with_entry t k b =
    let before =
      total-ext (mass_at (with_entry t k b)) (mass_at t) k
        (λ i p. ap (λ x. x.mass) (update_other t.blob k b i (omega arith))) in
    let last : mass_at (with_entry t k b) k ≡ b.mass = ap (λ x. x.mass) (update_self t.blob k b) in
    omega (arith, total-next (mass_at (with_entry t k b)) k, before, last)

absorb-Sound :
    {width height n : ℕ} (b d : Blob)
    → Fits width height n
    → d.mass + b.mass ≤ n
    → Sound width height d
    → Sound width height b
    → Sound width height (absorb b d)
absorb-Sound {n} b d fits p sd sb = record {
  heavy = omega (arith, sd.heavy);
  across = Axis-join n fits.across p sd.heavy sd.across sb.across;
  down = Axis-join n fits.down p sd.heavy sd.down sb.down;
}

module _ (stack : ℕ → Blob) {width height count active n : ℕ} {u : Table}
    (fits : Fits width height n) (enough : active ≤ n) (in_use : count ≤ u.entries) where
  records :
      {s : MergeState} (i : ℕ)
      → label_at u (suc i) ≡ suc i
      → Merging stack width height count active u (suc i) s
      → Yields
          (Merging stack width height count active u i)
          (record_blob (let t = s.blobs in t.blob (suc i)) s)
  unfolding record_blob
  records {s} i own m =
      let t = s.blobs in
      let b = t.blob (suc i) in
      let c = s.consolidated_blobs in
      let k = s.num_blobs in
      let e = m.each (suc i) (omega arith) (omega arith) in
      let heavy = (let z = e.sound in z.heavy) in
      let across = mean width b.x_min b.x_max b.mass b.sum_x heavy (let z = e.sound in z.across) in
      let down = mean height b.y_min b.y_max b.mass b.sum_y heavy (let z = e.sound in z.down) in
      let new = consolidate k (b.sum_x / b.mass) (b.sum_y / b.mass) b in
      rw
        (
          divide-eq b.sum_x b.mass heavy,
          divide-eq b.sum_y b.mass heavy,
          set_entry-eq c k new (omega (arith, m.few, m.room)),
        )
        (yields (record {
          entries = m.entries;
          labels = m.labels;
          origin = m.origin;
          each = λ j p q. m.each j p (omega arith);
          room = m.room;
          few = omega (arith, m.few);
          listed = λ j p.
              update-all (Listed width height) c.blob k new j
                (record {
                  label = refl;
                  sound =
                      (let z = e.sound in
                        record { heavy = z.heavy; across = z.across; down = z.down });
                  left = across.0;
                  right = across.1;
                  top = down.0;
                  bottom = down.1;
                })
                (λ ne. m.listed j (omega (arith, ne)));
          untouched =
              λ j p. update_other c.blob k new j (omega arith) ∙ m.untouched j (omega arith);
          mass = omega (arith, masses-with_entry c k new, total-last (mass_at t) i, m.mass);
          roots =
              let counts : root_at u (suc i) ≡ 1 =
                rw ((==_iff (label_at u (suc i)) (suc i)).1 own) refl in
              omega (arith, counts, total-last (root_at u) i, m.roots);
        }))

  absorbs :
      {s : MergeState} (i : ℕ)
      → label_at u (suc i) ≢ suc i
      → Merging stack width height count active u (suc i) s
      → Yields (Merging stack width height count active u i) (do
        let t = s.blobs
        let b = t.blob (suc i)
        d ← entry s.blobs b.label
        blobs ← set_entry s.blobs b.label (absorb b d)
        some (record s { blobs = blobs }))
  absorbs {s} i other m =
      let t = s.blobs in
      let b = t.blob (suc i) in
      let d = b.label in
      let e = m.each (suc i) (omega arith) (omega arith) in
      let moved : d ≢ suc i = λ q. other (sym (m.labels (suc i)) ∙ q) in
      let below : d < suc i = omega (arith, e.label_high, moved) in
      let f = m.each d e.label_low (omega arith) in
      let new = absorb b (t.blob d) in
      let change =
        total-differ (mass_at t) (mass_at (with_entry t d new)) (i + 1) d (omega arith)
          (λ j ne. ap (λ x. x.mass) (update_other t.blob d new j (λ q. ne (sym q)))) in
      let more : mass_at (with_entry t d new) d ≡ mass_at t d + b.mass =
        ap (λ x. x.mass) (update_self t.blob d new) in
      let part = le-total (mass_at t) (i + 1) d (omega arith) in
      let last = total-last (mass_at t) i in
      rw
        (
          entry-eq t d (omega (arith, m.entries, m.few)),
          set_entry-eq t d new (omega (arith, m.entries, m.few)),
        )
        (yields (record {
          entries = m.entries;
          labels = λ j.
              update-all (λ k x. x.label ≡ label_at u k) t.blob d new j (m.labels d)
                (λ ne. m.labels j);
          origin =
              ap (λ x. x.mass)
                (update_other t.blob d new 0 (omega (arith, f.label_low, e.label_low)))
              ∙ m.origin;
          each = λ j p q.
              update-all (λ k x. 1 ≤ k → k ≤ i → Entry width height k x) t.blob d new j
                (λ x y. record {
                  label_low = f.label_low;
                  label_high = f.label_high;
                  sound =
                      absorb-Sound b (t.blob d) fits (omega (arith, part, last, m.mass, enough))
                        f.sound e.sound;
                })
                (λ ne x y. m.each j x (omega arith)) p q;
          room = m.room;
          few = omega (arith, m.few);
          listed = m.listed;
          untouched = m.untouched;
          mass = omega (arith, change, more, last, m.mass);
          roots =
              let none_more : root_at u (suc i) ≡ 0 =
                rw (not_eq (label_at u (suc i)) (suc i) other) refl in
              omega (arith, none_more, total-last (root_at u) i, m.roots);
        }))

  merges :
      (i : ℕ) (s : MergeState)
      → Merging stack width height count active u (suc i) s
      → Yields (Merging stack width height count active u i) (merge_blob (suc i) s)
  unfolding merge_blob
  merges i s m =
      let t = s.blobs in
      rw (entry-eq t (suc i) (omega (arith, m.entries, m.few)))
        (elim (Bool-cases (label_at t (suc i) == suc i)) [
          | inl y ↦
              rw y
                (records i (sym (m.labels (suc i)) ∙ (==_iff (label_at t (suc i)) (suc i)).0 y) m)
          | inr o ↦ rw o (
              absorbs i
                (λ q. cc (o, (==_iff (label_at t (suc i)) (suc i)).1 (m.labels (suc i) ∙ q))) m)
        ])

  merges_down :
      (i : ℕ) (s : MergeState)
      → Merging stack width height count active u i s
      → Yields (Merging stack width height count active u 0) (merge_down i s)
  merges_down zero s m = yields m
  merges_down (suc i) s m = Yields-bind (merges i s m) λ t n. merges_down i t n

  -- The merging does not fault: all mass is in the list, which has one entry for each label that
  -- points to itself.
  pub merge_blobs-Merging :
      1 ≤ count
      → Blobs width height count active u
      → Yields (Merging stack width height count active u 0) (merge_blobs stack count u)
  unfolding merge_blobs
  merge_blobs-Merging first m = merges_down (count - 1) _ (record {
    entries = refl;
    labels = λ j. refl;
    each = λ j p q. m.each j p (omega arith);
    room = refl;
    few = omega arith;
    listed = λ k p. absurd (omega arith);
    origin = m.origin;
    untouched = λ k p. refl;
    mass = let same : count - 1 + 1 ≡ count = omega arith in rw same (omega (arith, m.mass));
    roots = let same : count - 1 + 1 ≡ count = omega arith in rw same (omega arith);
  })

-- What the list of merged blobs is.
pub record Merged (stack : ℕ → Blob) (width height count active : ℕ) (u : Table) (s : MergeState)
    : Type 0 where
  pub entries : (let t = s.blobs in t.entries) ≡ u.entries
  pub labels : (j : ℕ) → label_at s.blobs j ≡ label_at u j
  pub room : (let c = s.consolidated_blobs in c.entries) ≡ count
  pub few : s.num_blobs < count
  pub listed :
      (k : ℕ) → k < s.num_blobs → Listed width height k (let c = s.consolidated_blobs in c.blob k)
  pub untouched : (k : ℕ) → s.num_blobs ≤ k → (let c = s.consolidated_blobs in c.blob k) ≡ stack k
  pub mass : masses s.consolidated_blobs s.num_blobs ≡ active
  pub roots : s.num_blobs ≡ total (root_at u) count

pub Merging-Merged :
    {stack : ℕ → Blob} {width height count active : ℕ} {u : Table} {s : MergeState}
    → Merging stack width height count active u 0 s
    → Merged stack width height count active u s
Merging-Merged {u} {s} m =
    let t = s.blobs in
    let first = total-next (mass_at t) 0 in
    let root = total-next (root_at u) 0 in
    record {
      entries = m.entries;
      labels = m.labels;
      room = m.room;
      few = omega (arith, m.few);
      listed = m.listed;
      untouched = m.untouched;
      mass = omega (arith, first, m.origin, m.mass);
      roots = omega (arith, root, m.roots);
    }
