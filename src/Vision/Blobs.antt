-- ===== src/Vision/Blobs.antt =====
-- src/blob_detect.cpp: connected pixels get labels, labels that meet are merged, and the blob of the
-- greatest mass is found.
pub mod Axis
pub mod Labelled
pub mod Step
pub mod Loops
pub mod Redirect
use final.Base.{
  ℕ, zero, suc, ◌+◌, ◌-◌, ◌*◌, ◌/◌, ◌%◌, ◌^◌, Option, none, some, ◌>>=◌, ltb, ◌==◌, Bool, true,
  false, not, ◌&&◌, ◌||◌, if◌then◌else◌, update,
}
use final.Base.Int.{ℤ, pos, ◌+ℤ◌, ◌-ℤ◌, ltb_ℤ, abs}
use final.Base.Loops.{for_range}
use final.Vision.Image.{Image, read, write}

-- struct blob. sum_x and sum_y are unsigned long, of 32 bits on the Raspberry Pi.
pub record Blob : Type 0 where
  pub label : ℕ
  pub x_min : ℕ
  pub x_max : ℕ
  pub y_min : ℕ
  pub y_max : ℕ
  pub centroid_x : ℕ
  pub centroid_y : ℕ
  pub sum_x : ℕ
  pub sum_y : ℕ
  pub mass : ℕ

abbrev pub no_blob : Blob
no_blob = record {
  label = 0;
  x_min = 0;
  x_max = 0;
  y_min = 0;
  y_max = 0;
  centroid_x = 0;
  centroid_y = 0;
  sum_x = 0;
  sum_y = 0;
  mass = 0;
}

-- An array of blobs: an access out of range faults.
pub record Table : Type 0 where
  pub entries : ℕ
  pub blob : ℕ → Blob

abbrev pub entry : Table → ℕ → Option Blob
entry t i = if ltb i t.entries then some (t.blob i) else none

abbrev pub set_entry : Table → ℕ → Blob → Option Table
set_entry t i b = if ltb i t.entries then some (record t { blob = update t.blob i b }) else none

-- The variables of the loops that label the pixels.
pub record Labels : Type 0 where
  pub output : Image
  pub blobs : Table
  pub label_counter : ℕ

abbrev pub ulong : ℕ → ℕ
ulong n = n % 2 ^ 32

abbrev pub ushort : ℕ → ℕ
ushort n = n % 2 ^ 16

-- if (lbl != 0 && lbl < min_label) min_label = lbl
abbrev pub lower : ℕ → ℕ → ℕ
lower lbl min_label = if not (lbl == 0) && ltb lbl min_label then lbl else min_label

unfoldable pub min_label : ℕ → ℕ → ℕ → ℕ → ℕ
min_label lbl_a lbl_b lbl_c lbl_d = lower lbl_d (lower lbl_c (lower lbl_b (lower lbl_a 255)))

abbrev pub start_blob : ℕ → ℕ → ℕ → Blob → Blob
start_blob lbl row col b = record b {
  label = lbl;
  x_min = col;
  x_max = col;
  y_min = row;
  y_max = row;
  mass = 1;
  sum_x = col;
  sum_y = row;
}

abbrev pub grow_blob : ℕ → ℕ → Blob → Blob
grow_blob row col b = record b {
  x_min = if ltb col b.x_min then col else b.x_min;
  x_max = if ltb b.x_max col then col else b.x_max;
  y_min = if ltb row b.y_min then row else b.y_min;
  y_max = if ltb b.y_max row then row else b.y_max;
  mass = b.mass + 1;
  sum_x = ulong (b.sum_x + col);
  sum_y = ulong (b.sum_y + row);
}

-- if (lbl != min_label) blobs[lbl].label = min_label
unfoldable pub join : ℕ → ℕ → Table → Option Table
join lbl min blobs =
    if lbl == min
    then some blobs
    else (do b ← entry blobs lbl; set_entry blobs lbl (record b { label = min }))

-- No neighbour has a label: a new blob is started at the pixel.
unfoldable pub new_label : ℕ → ℕ → Labels → Option (ℕ × Labels)
new_label row col s = do
  b ← entry s.blobs s.label_counter
  blobs ← set_entry s.blobs s.label_counter (start_blob s.label_counter row col b)
  some (s.label_counter, record s { blobs = blobs; label_counter = s.label_counter + 1 })

-- The pixel is added to the blob of the least label, and the blobs that meet here are joined.
unfoldable pub extend_label : ℕ → ℕ → ℕ → ℕ → ℕ → ℕ → ℕ → Labels → Option (ℕ × Labels)
extend_label row col lbl_a lbl_b lbl_c lbl_d min s = do
  b ← entry s.blobs min
  grown ← set_entry s.blobs min (grow_blob row col b)
  joined_a ← join lbl_a min grown
  joined_b ← join lbl_b min joined_a
  joined_c ← join lbl_c min joined_b
  joined_d ← join lbl_d min joined_c
  some (min, record s { blobs = joined_d })

-- The label of an active pixel.
unfoldable pub active_label : ℕ → ℕ → ℕ → Labels → Option (ℕ × Labels)
active_label width row col s = do
  lbl_a ← read s.output ((row - 1) * width + (col - 1))
  lbl_b ← read s.output ((row - 1) * width + col)
  lbl_c ← read s.output ((row - 1) * width + (col + 1))
  lbl_d ← read s.output (row * width + (col - 1))
  let min = min_label lbl_a lbl_b lbl_c lbl_d
  if min == 255 then new_label row col s else extend_label row col lbl_a lbl_b lbl_c lbl_d min s

-- The body of the loops: the pixel is cleared, and gets its label if it is active.
unfoldable pub label_pixel : Image → ℕ → ℕ → ℕ → Labels → Option Labels
label_pixel input width row col s = do
  cleared ← write s.output (row * width + col) 0
  pixel ← read input (row * width + col)
  let before = record s { output = cleared }
  (lbl_x, after) ← (if pixel == 0 then some (0, before) else active_label width row col before)
  output ← write after.output (row * width + col) (ushort lbl_x)
  some (record after { output = output })

unfoldable pub label_pixels : Image → ℕ → ℕ → Labels → Option Labels
label_pixels input width height s =
    for_range (height - 2) 1 (λ row. for_range (width - 2) 1 (label_pixel input width row)) s

-- if (blobs[i].label != i) blobs[i].label = blobs[blobs[i].label].label
unfoldable pub redirect_label : ℕ → Table → Option Table
redirect_label i blobs = do
  b ← entry blobs i
  if b.label == i
      then some blobs
      else (do target ← entry blobs b.label; set_entry blobs i (record b { label = target.label }))

unfoldable pub redirect : ℕ → Table → Option Table
redirect label_counter blobs = for_range (label_counter - 1) 1 redirect_label blobs
