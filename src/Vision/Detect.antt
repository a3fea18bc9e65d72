-- ===== src/Vision/Detect.antt =====
-- src/blob_detect.cpp from the merging of blobs on: the list of merged blobs, the greatest of them,
-- and the picture that is drawn. And blob_detect as a whole.
pub mod Merge
pub mod Biggest
pub mod Picture
pub mod Whole
mod Tests
use final.Base.{
  ℕ, zero, suc, ◌+◌, ◌-◌, ◌*◌, ◌/◌, ◌%◌, ◌^◌, Option, none, some, ◌>>=◌, ltb, ◌==◌, Bool, true,
  false, not, ◌&&◌, ◌||◌, if◌then◌else◌, update,
}
use final.Base.Int.{ℤ, pos, ◌+ℤ◌, ◌-ℤ◌, ltb_ℤ, abs}
use final.Base.Loops.{for_range}
use final.Vision.Image.{Image, read, write, divide}
use final.Vision.Blobs.{
  Blob, no_blob, Table, entry, set_entry, Labels, ulong, ushort, label_pixels, redirect,
}

-- The variables of the loop that merges.
pub record MergeState : Type 0 where
  pub blobs : Table
  pub consolidated_blobs : Table
  pub num_blobs : ℕ

-- Blob `b` is merged into `d`.
abbrev pub absorb : Blob → Blob → Blob
absorb b d = record d {
  x_min = if ltb b.x_min d.x_min then b.x_min else d.x_min;
  x_max = if ltb d.x_max b.x_max then b.x_max else d.x_max;
  y_min = if ltb b.y_min d.y_min then b.y_min else d.y_min;
  y_max = if ltb d.y_max b.y_max then b.y_max else d.y_max;
  mass = d.mass + b.mass;
  sum_x = ulong (d.sum_x + b.sum_x);
  sum_y = ulong (d.sum_y + b.sum_y);
}

-- The entry of a blob in the list of merged blobs.
abbrev pub consolidate : ℕ → ℕ → ℕ → Blob → Blob
consolidate num_blobs centroid_x centroid_y b = record {
  label = num_blobs;
  x_min = b.x_min;
  x_max = b.x_max;
  y_min = b.y_min;
  y_max = b.y_max;
  centroid_x = centroid_x;
  centroid_y = centroid_y;
  sum_x = b.sum_x;
  sum_y = b.sum_y;
  mass = b.mass;
}

unfoldable pub record_blob : Blob → MergeState → Option MergeState
record_blob b s = do
  centroid_x ← divide b.sum_x b.mass
  centroid_y ← divide b.sum_y b.mass
  consolidated_blobs ←
      set_entry s.consolidated_blobs s.num_blobs (consolidate s.num_blobs centroid_x centroid_y b)
  some (record s { consolidated_blobs = consolidated_blobs; num_blobs = s.num_blobs + 1 })

unfoldable pub merge_blob : ℕ → MergeState → Option MergeState
merge_blob i s = do
  b ← entry s.blobs i
  if b.label == i then record_blob b s else (do
    d ← entry s.blobs b.label
    blobs ← set_entry s.blobs b.label (absorb b d)
    some (record s { blobs = blobs }))

-- for (i = last; i > 0; i--)
abbrev pub merge_down : ℕ → MergeState → Option MergeState
merge_down zero s = some s
merge_down (suc i) s = merge_blob (suc i) s >>= merge_down i

-- consolidated_blobs is not initialised: `stack` is what happens to stand there.
unfoldable pub merge_blobs : (ℕ → Blob) → ℕ → Table → Option MergeState
merge_blobs stack label_counter blobs = merge_down (label_counter - 1) (record {
  blobs = blobs;
  consolidated_blobs = record { entries = label_counter; blob = stack };
  num_blobs = 0;
})

-- if (output != 0) output = blobs[output].label
unfoldable pub recolour_pixel : Table → ℕ → ℕ → ℕ → Image → Option Image
recolour_pixel blobs width row col output = do
  lbl ← read output (row * width + col)
  if lbl == 0
      then some output
      else (do b ← entry blobs lbl; write output (row * width + col) (ushort b.label))

unfoldable pub recolour : Table → ℕ → ℕ → Image → Option Image
recolour blobs width height output =
    for_range (height - 2) 1 (λ row. for_range (width - 2) 1 (recolour_pixel blobs width row))
      output

unfoldable pub larger : Table → ℕ → ℕ → Option ℕ
larger consolidated_blobs i biggest_blob_index = do
  b ← entry consolidated_blobs i
  biggest ← entry consolidated_blobs biggest_blob_index
  some (if ltb biggest.mass b.mass then i else biggest_blob_index)

unfoldable pub find_biggest : Table → ℕ → Option ℕ
find_biggest consolidated_blobs num_blobs = for_range num_blobs 0 (larger consolidated_blobs) 0

-- biggest_blob is filled with all fields but the sums.
abbrev pub fill_biggest : Blob → Blob → Blob
fill_biggest b biggest_blob = record biggest_blob {
  label = b.label;
  x_min = b.x_min;
  x_max = b.x_max;
  y_min = b.y_min;
  y_max = b.y_max;
  mass = b.mass;
  centroid_x = b.centroid_x;
  centroid_y = b.centroid_y;
}

-- A pixel between the ends of the bounding box, on one of its vertical or horizontal rails.
abbrev pub on_rail : Blob → ℕ → ℕ → Bool
on_rail b row col =
    ((col == b.x_min || col == b.x_max) && (ltb b.y_min row && ltb row b.y_max))
    || ((row == b.y_min || row == b.y_max) && (ltb b.x_min col && ltb col b.x_max))

-- A pixel of the cross through the centroid, more than 10 pixels inside the box.
abbrev pub on_cross : Blob → ℕ → ℕ → Bool
on_cross b row col =
    (ltb_ℤ (abs (pos col -ℤ pos b.centroid_x)) (pos 2)
      || ltb_ℤ (abs (pos row -ℤ pos b.centroid_y)) (pos 2))
    && (ltb (b.y_min + 10) row
        && ltb_ℤ (pos row) (pos b.y_max -ℤ pos 10)
        && (ltb (b.x_min + 10) col && ltb_ℤ (pos col) (pos b.x_max -ℤ pos 10)))

-- The labels are brightened, and the box and the cross are drawn over them.
unfoldable pub draw_pixel : Blob → ℕ → ℕ → ℕ → Image → Option Image
draw_pixel b width row col output = do
  lbl ← read output (row * width + col)
  bright ← write output (row * width + col) (ushort (lbl * 30))
  boxed ← (if on_rail b row col then write bright (row * width + col) 255 else some bright)
  if on_cross b row col then write boxed (row * width + col) 255 else some boxed

unfoldable pub draw : Blob → ℕ → ℕ → Image → Option Image
draw b width height output =
    for_range (height - 2) 1 (λ row. for_range (width - 2) 1 (draw_pixel b width row)) output

-- What blob_detect returns and leaves behind.
pub record Detected : Type 0 where
  pub biggest_blob : Blob
  pub output : Image
  pub num_blobs : ℕ

-- blobs has width * height / 4 entries, all zero.
abbrev pub no_labels : Image → ℕ → ℕ → Labels
no_labels output width height = record {
  output = output;
  blobs = record { entries = width * height / 4; blob = λ i. no_blob };
  label_counter = 1;
}

-- The sizes are those that the parameters of type short have got, none of them negative, and so are
-- the numbers that the stack held.
unfoldable pub blob_detect : (ℕ → Blob) → Blob → Image → Image → ℕ → ℕ → Option Detected
blob_detect stack biggest_blob output input width height = do
  s ← label_pixels input width height (no_labels output width height)
  blobs ← redirect s.label_counter s.blobs
  m ← merge_blobs stack s.label_counter blobs
  shown ← recolour m.blobs width height s.output
  biggest_blob_index ← find_biggest m.consolidated_blobs m.num_blobs
  b ← entry m.consolidated_blobs biggest_blob_index
  let biggest = fill_biggest b biggest_blob
  drawn ← draw biggest width height shown
  some (record { biggest_blob = biggest; output = drawn; num_blobs = m.num_blobs })
