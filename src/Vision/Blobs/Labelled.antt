-- ===== src/Vision/Blobs/Labelled.antt =====
-- What holds of the labels and blobs while the pixels are labelled, and what each change of the table
-- keeps of it.
use final.Base.{
  ℕ, ◌+◌, ◌*◌, ◌^◌, ◌≤◌, ◌<◌, ◌≡◌, refl, sym, ap, ◌∙◌, arith, some, update, update_self,
  update_other, update-all, lt→ltb,
}
use final.Base.Sums.{total, total-ext, total-differ, total-next, le-total}
use final.Vision.Blobs.{Blob, Table, entry, set_entry, start_blob, grow_blob}
use final.Vision.Blobs.Axis.{Axis, Axis-pixel, Axis-join}

pub entry-eq : (t : Table) (i : ℕ) → i < t.entries → entry t i ≡ some (t.blob i)
entry-eq t i p = rw (lt→ltb i t.entries p) refl

pub set_entry-eq :
    (t : Table) (i : ℕ) (b : Blob)
    → i < t.entries
    → set_entry t i b ≡ some (record t { blob = update t.blob i b })
set_entry-eq t i b p = rw (lt→ltb i t.entries p) refl

-- A blob in an image of `width` by `height` pixels.
pub record Sound (width height : ℕ) (b : Blob) : Type 0 where
  pub heavy : 0 < b.mass
  pub across : Axis width b.x_min b.x_max b.mass b.sum_x
  pub down : Axis height b.y_min b.y_max b.mass b.sum_y

relabelled :
    {width height lbl : ℕ} {b : Blob}
    → Sound width height b
    → Sound width height (record b { label = lbl })
relabelled s = record { heavy = s.heavy; across = s.across; down = s.down }

-- Entry `i` of the table, which points to itself or to an earlier one.
pub record Entry (width height i : ℕ) (b : Blob) : Type 0 where
  pub label_low : 1 ≤ b.label
  pub label_high : b.label ≤ i
  pub sound : Sound width height b

-- The masses of the first blobs together.
abbrev pub mass_at : Table → ℕ → ℕ
mass_at t i = let b = t.blob i in b.mass

abbrev pub masses : Table → ℕ → ℕ
masses t = total (mass_at t)

-- The table after `active` active pixels, with the labels below `count` in use.
pub record Blobs (width height count active : ℕ) (t : Table) : Type 0 where
  pub origin : mass_at t 0 ≡ 0
  pub each : (i : ℕ) → 1 ≤ i → i < count → Entry width height i (t.blob i)
  pub mass : masses t count ≡ active

abbrev pub with_entry : Table → ℕ → Blob → Table
with_entry t i b = record t { blob = update t.blob i b }

module _ {width height count active : ℕ} {t : Table} (m : Blobs width height count active t) where
  -- A new blob of one pixel.
  pub Blobs-start :
      (row col : ℕ)
      → 1 ≤ count
      → 1 ≤ row
      → row + 1 < height
      → 1 ≤ col
      → col + 1 < width
      → Blobs width height
          (count + 1)
          (active + 1)
          (with_entry t count (start_blob count row col (t.blob count)))
  Blobs-start row col first a b c d =
      let new = start_blob count row col (t.blob count) in
      let before =
        total-ext (mass_at (with_entry t count new)) (mass_at t) count
          (λ i p. ap (λ x. x.mass) (update_other t.blob count new i (omega arith))) in
      let last : mass_at (with_entry t count new) count ≡ 1 =
        ap (λ x. x.mass) (update_self t.blob count new) in
      record {
        origin = ap (λ x. x.mass) (update_other t.blob count new 0 (omega arith)) ∙ m.origin;
        each = λ i p q.
            update-all (Entry width height) t.blob count new i
              (record {
                label_low = first;
                label_high = omega arith;
                sound = record {
                  heavy = omega arith;
                  across = Axis-pixel width col c d;
                  down = Axis-pixel height row a b;
                };
              })
              (λ ne. m.each i p (omega (arith, ne)));
        mass =
            omega
              (arith, total-next (mass_at (with_entry t count new)) count, before, last, m.mass);
      }

  -- No blob has more mass than there are active pixels.
  pub mass-le : (i : ℕ) → i < count → mass_at t i ≤ active
  mass-le i p = omega (arith, m.mass, le-total (mass_at t) count i p)

  -- A pixel more in a blob.
  pub Blobs-grow :
      (i row col n : ℕ)
      → 1 ≤ i
      → i < count
      → active + 1 ≤ n
      → width * n ≤ 2 ^ 32
      → height * n ≤ 2 ^ 32
      → 1 ≤ row
      → row + 1 < height
      → 1 ≤ col
      → col + 1 < width
      → Blobs width height count (active + 1) (with_entry t i (grow_blob row col (t.blob i)))
  Blobs-grow i row col n low high room fits_x fits_y a b c d =
      let old = t.blob i in
      let new = grow_blob row col old in
      let e = m.each i low high in
      let light = mass-le i high in
      let s = e.sound in
      let change =
        total-differ (mass_at t) (mass_at (with_entry t i new)) count i high
          (λ j ne. ap (λ x. x.mass) (update_other t.blob i new j (λ q. ne (sym q)))) in
      let more : mass_at (with_entry t i new) i ≡ old.mass + 1 =
        ap (λ x. x.mass) (update_self t.blob i new) in
      record {
        origin = ap (λ x. x.mass) (update_other t.blob i new 0 (omega arith)) ∙ m.origin;
        each = λ j p q.
            update-all (Entry width height) t.blob i new j
              (record {
                label_low = e.label_low;
                label_high = e.label_high;
                sound = record {
                  heavy = omega arith;
                  across =
                      Axis-join n fits_x (omega arith) s.heavy s.across (Axis-pixel width col c d);
                  down =
                      Axis-join n fits_y (omega arith) s.heavy s.down (Axis-pixel height row a b);
                };
              })
              (λ ne. m.each j p q);
        mass = omega (arith, change, more, m.mass);
      }

  -- Another label for a blob, which is not above its own number.
  pub Blobs-relabel :
      (i lbl : ℕ)
      → 1 ≤ lbl
      → (1 ≤ i → lbl ≤ i)
      → Blobs width height count active (with_entry t i (record (t.blob i) { label = lbl }))
  Blobs-relabel i lbl low high =
      let new : Blob = record (t.blob i) { label = lbl } in
      let same : (j : ℕ) → mass_at (with_entry t i new) j ≡ mass_at t j =
        λ j. update-all (λ k b. b.mass ≡ mass_at t k) t.blob i new j refl (λ ne. refl) in
      record {
        origin = same 0 ∙ m.origin;
        each = λ j p q.
            update-all (λ k b. 1 ≤ k → k < count → Entry width height k b) t.blob i new j
              (λ x y.
                let e = m.each i x y in
                record { label_low = low; label_high = high x; sound = relabelled e.sound })
              (λ ne x y. m.each j x y) p q;
        mass = total-ext (mass_at (with_entry t i new)) (mass_at t) count (λ j p. same j) ∙ m.mass;
      }
