-- ===== src/Vision/Detect/Tests.antt =====
-- Runs of the blob detection on small masks.
use final.Base.{
  ◌==◌, ◌||◌, ◌>>=◌, if◌then◌else◌, ℕ, zero, suc, ◌≡◌, ◌≤◌, ◌<◌, refl, some, arith, Yields,
}
use final.Vision.Image.{Image}
use final.Vision.Blobs.{Blob, no_blob}
use final.Vision.Blobs.Axis.{Axis-pixel}
use final.Vision.Blobs.Labelled.{Blobs, Entry, Sound}
use final.Vision.Blobs.Redirect.{Redirected, redirect-Redirected}
use final.Base.Int.{◌+ℤ◌, ◌-ℤ◌, abs}
use final.Vision.Blobs.{
  label_pixels, label_pixel, active_label, new_label, extend_label, join, min_label, redirect,
  redirect_label,
}
use final.Vision.Detect.{
  blob_detect, fill_biggest, merge_blobs, merge_blob, record_blob, recolour, recolour_pixel,
  find_biggest, larger, draw, draw_pixel,
}
use final.Vision.Detect.Whole.{IsMask, Detects, blob_detect-Detects, blob_detect_dark}

-- 6 by 4 pixels, of which 7, 8 and 14 are active: (1, 1), (1, 2) and (2, 2).
abbrev spots : ℕ → ℕ
spots (suc (suc (suc (suc (suc (suc (suc zero))))))) = 255
spots (suc (suc (suc (suc (suc (suc (suc (suc zero)))))))) = 255
spots (suc (suc (suc (suc (suc (suc (suc (suc (suc (suc (suc (suc (suc (suc zero)))))))))))))) = 255
spots k = 0

abbrev blank : Image
blank = record { size = 24; cells = λ k. 0 }

-- The memory that the array of merged blobs is put in.
abbrev garbage : ℕ → Blob
garbage k = record no_blob { mass = 77 }

is_mask : IsMask (record { size = 24; cells = spots }) blank 6 4
is_mask = record {
  size_in = refl;
  size_out = refl;
  blank = λ k. refl;
  few = omega arith;
  fits = record { across = omega arith; down = omega arith };
}

blob_detect-Detects_example :
    Yields
      (Detects garbage no_blob (record { size = 24; cells = spots }) 6 4)
      (blob_detect garbage no_blob blank (record { size = 24; cells = spots }) 6 4)
blob_detect-Detects_example = blob_detect-Detects garbage no_blob is_mask

is_dark : IsMask blank blank 6 4
is_dark = record {
  size_in = refl;
  size_out = refl;
  blank = λ k. refl;
  few = omega arith;
  fits = record { across = omega arith; down = omega arith };
}

blob_detect_dark_example :
    Yields
      (λ d. (d.num_blobs ≡ 0) × (d.biggest_blob ≡ fill_biggest (garbage 0) no_blob))
      (blob_detect garbage no_blob blank blank 6 4)
blob_detect_dark_example = blob_detect_dark garbage no_blob is_dark refl

-- Three labels, of which the third points to the second and the second to the first.
abbrev pixel_blob : ℕ → Blob
pixel_blob lbl = record no_blob {
  label = lbl;
  x_min = 1;
  x_max = 1;
  y_min = 1;
  y_max = 1;
  sum_x = 1;
  sum_y = 1;
  mass = 1;
}

abbrev chain : ℕ → Blob
chain zero = no_blob
chain (suc zero) = pixel_blob 1
chain (suc (suc k)) = pixel_blob (suc k)

pixel_Sound : (lbl : ℕ) → Sound 3 3 (pixel_blob lbl)
pixel_Sound lbl = record {
  heavy = omega arith;
  across = Axis-pixel 3 1 (omega arith) (omega arith);
  down = Axis-pixel 3 1 (omega arith) (omega arith);
}

chain-Blobs : Blobs 3 3 4 3 (record { entries = 5; blob = chain })
chain-Blobs = record { origin = refl; each = each; mass = refl }
  where
    each : (i : ℕ) → 1 ≤ i → i < 4 → Entry 3 3 i (chain i)
    each zero p q = absurd (omega arith)
    each (suc zero) p q = record {
      label_low = omega arith;
      label_high = omega arith;
      sound = pixel_Sound 1;
    }
    each (suc (suc k)) p q = record {
      label_low = omega arith;
      label_high = omega arith;
      sound = pixel_Sound (suc k);
    }

redirect-Redirected_example :
    Yields
      (λ u. Redirected (record { entries = 5; blob = chain }) 4 u × Blobs 3 3 4 3 u)
      (redirect 4 (record { entries = 5; blob = chain }))
redirect-Redirected_example =
    redirect-Redirected (record { entries = 5; blob = chain }) (omega arith) (omega arith)
      chain-Blobs

-- One connected shape, in which label 3 meets label 2 and then label 1: its pointer to 2 is replaced by
-- one to 1, and 2 is never joined.
-- .......
-- .#...#.
-- .#.##..
-- ..#....
-- .......
abbrev shape : ℕ → ℕ
shape k =
    if (k == 8) || (k == 12) || (k == 15) || (k == 17) || (k == 18) || (k == 23) then 255 else 0

stays_split :
    (blob_detect garbage no_blob
        (record { size = 35; cells = λ k. 0 })
        (record { size = 35; cells = shape })
        7
        5
      >>= λ d. some d.num_blobs)
    ≡ some 2
unfolding blob_detect label_pixels label_pixel active_label new_label extend_label join min_label
    redirect redirect_label merge_blobs merge_blob record_blob recolour recolour_pixel find_biggest
    larger draw draw_pixel ◌+ℤ◌ ◌-ℤ◌ abs
stays_split = refl
