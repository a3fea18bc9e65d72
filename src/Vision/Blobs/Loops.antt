-- ===== src/Vision/Blobs/Loops.antt =====
-- The loops over all pixels: together the blobs have a unit of mass for each active pixel.
use final.Base.{
  ℕ, ◌+◌, ◌-◌, ◌*◌, ◌≤◌, ◌<◌, ◌≡◌, refl, sym, ap, ◌∙◌, subst, arith, some, ◌==◌, if◌then◌else◌,
  false, Bool-cases, inl, inr, update, update-all, Yields, yields, Yields-bind, ◌>>=◌,
}
use final.Base.Sums.{total, total-next, total_mono}
use final.Base.Loops.{for_range, for_range-Rounds}
use final.Vision.Image.{Image, write, read-eq, write-eq, index-lt}
use final.Vision.Blobs.{no_blob, Labels, label_pixel, label_pixels, ushort}
use final.Vision.Blobs.Step.{Fits, Counted, Counted-output, Found, active_label-Found}

-- 1 for an active pixel.
abbrev pub lit : Image → ℕ → ℕ
lit input k = if input.cells k == 0 then 0 else 1

-- The active pixels of the first columns of a row, and of the first rows, without the border.
abbrev pub lit_in_row : Image → ℕ → ℕ → ℕ → ℕ
lit_in_row input width row = total (λ c. lit input (row * width + (c + 1)))

abbrev pub lit_in_rows : Image → ℕ → ℕ → ℕ
lit_in_rows input width = total (λ r. lit_in_row input width (r + 1) (width - 2))

abbrev pub active_pixels : Image → ℕ → ℕ → ℕ
active_pixels input width height = lit_in_rows input width (height - 2)

pub record Labelled (width height room active : ℕ) (s : Labels) : Type 0 where
  pub size : (let o = s.output in o.size) ≡ height * width
  pub cells : (k : ℕ) → (let o = s.output in o.cells k) < s.label_counter
  pub counted : Counted width height room active s

module _ (input : Image) {width height room : ℕ} (fits : Fits width height room)
    (size_in : input.size ≡ height * width) where
  -- The label is written to the output.
  finish :
      {s : Labels} (k active : ℕ) (found : ℕ × Labels)
      → (let o = s.output in o.size) ≡ height * width
      → ((i : ℕ) → (let o = s.output in o.cells i) < s.label_counter)
      → k < height * width
      → Found width height room (active + 1) s found
      → Yields (Labelled width height room (active + 1)) (
          write (let after = found.1 in after.output) k (ushort found.0) >>= λ output.
          some (record found.1 { output = output }))
  finish {s} k active (lbl, after) size low inside f =
      let same_size : (let o = after.output in o.size) ≡ height * width =
        ap (λ (o : Image). o.size) f.output ∙ size in
      rw (write-eq after.output k (ushort lbl) (omega (arith, same_size))) (
        yields (record {
          size = same_size;
          cells = λ i.
              update-all (λ j v. v < after.label_counter) (let o = after.output in o.cells) k
                (ushort lbl) i (omega (arith, f.known))
                (λ ne.
                  subst (λ (o : Image). o.cells i < after.label_counter) (sym f.output)
                    (omega (arith, low i, f.more)));
          counted = Counted-output _ f.counted;
        }))

  label_pixel-Labelled :
      (row col active : ℕ) (s : Labels)
      → 1 ≤ row
      → row + 1 < height
      → 1 ≤ col
      → col + 1 < width
      → active + lit input (row * width + col) < room
      → Labelled width height room active s
      → Yields
          (Labelled width height room (active + lit input (row * width + col)))
          (label_pixel input width row col s)
  unfolding label_pixel
  label_pixel-Labelled row col active s a b c d more m =
      let k = row * width + col in
      let o = s.output in
      let inside : k < height * width = index-lt width height row col (omega arith) (omega arith) in
      let cleared : Image = record o { cells = update o.cells k 0 } in
      let low : (i : ℕ) → cleared.cells i < s.label_counter = λ i.
        update-all (λ j v. v < s.label_counter) o.cells k 0 i m.counted.first (λ ne. m.cells i) in
      rw (write-eq o k 0 (omega (arith, m.size)), read-eq input k (omega (arith, size_in)))
        (elim (Bool-cases (input.cells k == 0)) [
          | inl y ↦
              let dark : Labels = record s {
                output = record o { cells = update cleared.cells k 0 };
              } in
              rw (y, write-eq cleared k 0 (omega (arith, m.size)))
                (yields (
                  subst (λ n. Labelled width height room n dark) (omega arith)
                    (record {
                      size = m.size;
                      cells = λ i.
                          update-all (λ j v. v < s.label_counter) cleared.cells k 0 i
                            m.counted.first (λ ne. low i);
                      counted =
                          Counted-output (record o { cells = update cleared.cells k 0 }) m.counted;
                    })))
          | inr n ↦
              let more' : active + 1 < room = rw_lit n more in
              rw n (
                Yields-bind
                  (active_label-Found fits (omega arith) row col a b c d more' m.size low
                    (Counted-output cleared m.counted))
                  λ found f. finish (row * width + col) active found m.size low inside f)
        ])
    where
      rw_lit :
          (input.cells (row * width + col) == 0) ≡ false
          → active + lit input (row * width + col) < room
          → active + 1 < room
      rw_lit n p = subst (λ t. active + (if t then 0 else 1) < room) n p

  label_row-Labelled :
      (row active : ℕ) (s : Labels)
      → 1 ≤ row
      → row + 1 < height
      → active + lit_in_row input width row (width - 2) < room
      → Labelled width height room active s
      → Yields
          (Labelled width height room (active + lit_in_row input width row (width - 2)))
          (for_range (width - 2) 1 (label_pixel input width row) s)
  label_row-Labelled row active s a b more m =
      for_range-Rounds (λ c t. Labelled width height room (active + lit_in_row input width row c) t)
        (label_pixel input width row) (width - 2) 1 s
        (λ c t d n.
          let here = row * width + (c + 1) in
          let next = total-next (λ x. lit input (row * width + (x + 1))) c in
          let within =
            total_mono (λ x. lit input (row * width + (x + 1))) (c + 1) (width - 2) (omega arith) in
          subst (λ k. Yields (Labelled width height room k) (label_pixel input width row (c + 1) t))
            (omega (arith, next))
            (label_pixel-Labelled row (c + 1) (active + lit_in_row input width row c) t a b
              (omega arith) (omega arith) (omega (arith, next, within)) n))
        (subst (λ k. Labelled width height room k s) (omega arith) m)

  -- With more entries than there are active pixels, the loops do not fault.
  pub label_pixels-Labelled :
      (s : Labels)
      → active_pixels input width height < room
      → Labelled width height room 0 s
      → Yields
          (Labelled width height room (active_pixels input width height))
          (label_pixels input width height s)
  unfolding label_pixels
  label_pixels-Labelled s more m =
      for_range-Rounds (λ r t. Labelled width height room (lit_in_rows input width r) t)
        (λ row. for_range (width - 2) 1 (label_pixel input width row)) (height - 2) 1 s
        (λ r t d n.
          let next = total-next (λ x. lit_in_row input width (x + 1) (width - 2)) r in
          let within =
            total_mono (λ x. lit_in_row input width (x + 1) (width - 2)) (r + 1) (height - 2)
              (omega arith) in
          subst
            (λ k.
              Yields (Labelled width height room k)
                (for_range (width - 2) 1 (label_pixel input width (r + 1)) t))
            (sym next)
            (label_row-Labelled (r + 1) (lit_in_rows input width r) t (omega arith) (omega arith)
              (omega (arith, next, within)) n))
        m

-- The state in which blob_detect starts, with an output of zeros.
pub Labelled-start :
    (width height room : ℕ) (output : Image)
    → output.size ≡ height * width
    → ((k : ℕ) → output.cells k ≡ 0)
    → Labelled width height room 0 (record {
      output = output;
      blobs = record { entries = room; blob = λ i. no_blob };
      label_counter = 1;
    })
Labelled-start width height room output size zeros = record {
  size = size;
  cells = λ k. omega (arith, zeros k);
  counted = record {
    entries = refl;
    first = omega arith;
    few = omega arith;
    blobs = record { origin = refl; each = λ i p q. absurd (omega arith); mass = refl };
  };
}
