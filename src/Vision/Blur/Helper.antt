-- ===== src/Vision/Blur/Helper.antt =====
-- blur_par.cpp: what one thread of the blur does with its stripe of columns.

use final.Base.{
  ℕ, zero, suc, ◌+◌, ◌-◌, ◌*◌, ◌/◌, ◌≤◌, ◌<◌, ◌≡◌, refl, sym, ◌∙◌, Option, some, arith, Yields,
  yields, Yields-mono, Bool, true, false, not, ◌&&◌, ltb, [], ltb→lt, not_ltb, Bool-cases, inl, inr,
  if◌then◌else◌, bind_same, ap, ◌>>=◌,
}
use final.Base.Loops.{for_range}
use final.Vision.Image.{Image}
use final.Vision.Pixels.{Pixel, run_jobs, run_jobs-jobs, All-jobs}
use final.Vision.Painters.{All, Did}
use final.Vision.Blur.{
  Blur, near_end, helper_pixel, helper_job, blur_args, stripe_jobs, blur_parallel, blur_helper,
  num_threads,
}
use final.Vision.Blur.Weights.{IsBlur, Between}
use final.Vision.Blur.Sequential.{blurred, touches, blur_pixel-Did}

for_range-skips : {S : Type 0} (n i : ℕ) (s : S) → for_range n i (λ k t. some t) s ≡ some s
for_range-skips zero i s = refl
for_range-skips (suc n) i s = for_range-skips n (i + 1) s

for_range-same :
    {S : Type 0} {f g : ℕ → S → Option S} (n i : ℕ) (s : S)
    → ((k : ℕ) (t : S) → f k t ≡ g k t)
    → for_range n i f s ≡ for_range n i g s
for_range-same zero i s same = refl
for_range-same {f} {g} (suc n) i s same =
    ap (λ o. o >>= for_range n (i + 1) f) (same i s)
    ∙ bind_same (g i s) (λ t. for_range-same n (i + 1) t same)

-- A thread's list of jobs is what blur_helper does.
pub run_jobs-blur_helper :
    (p : Blur) (i : ℕ) (res : Image)
    → run_jobs (helper_job p) (stripe_jobs p i) res ≡ blur_helper p res (blur_args p i)
unfolding blur_helper
run_jobs-blur_helper p i res =
    let a = blur_args p i in
    run_jobs-jobs (λ row col. helper_job p (record { row = row; col = col }))
      (a.end_row - a.start_row) (a.end_col - a.start_col) a.start_row a.start_col res
    ∙ for_range-same (a.end_row - a.start_row) a.start_row res (λ row t.
      row_same row (a.end_col - a.start_col) a.start_col t (near_end p row p.frame_height))
  where
    row_same :
        (row n col : ℕ) (t : Image) (near : Bool)
        → for_range n col (λ c im. if near then some im else helper_pixel p row c im) t
          ≡ (if near then some t else for_range n col (helper_pixel p row) t)
    row_same row n col t true = for_range-skips n col t
    row_same row n col t false = refl

abbrev pub paints : Blur → Pixel → ℕ → Bool
paints p px k =
    not (near_end p px.row p.frame_height)
    && not (near_end p px.col p.frame_width)
    && touches p.frame_width px k

last_part : {x y z : Bool} → x ≡ false → y ≡ false → (not x && not y && z) ≡ z
last_part {x = false} {y = false} e f = refl
last_part {x = false} {y = true} e f = cc
last_part {x = true} e f = cc

pub inner_parts :
    (x y z : Bool) → (not x && not y && z) ≡ true → (x ≡ false) × (y ≡ false) × (z ≡ true)
inner_parts true y z t = cc
inner_parts false true z t = cc
inner_parts false false z t = (refl, refl, t)

near_row : (x y z : Bool) → x ≡ true → (not x && not y && z) ≡ true → ⊥
near_row true y z e t = cc
near_row false y z e t = cc

near_col : (x y z : Bool) → y ≡ true → (not x && not y && z) ≡ true → ⊥
near_col true y z e t = cc
near_col false true z e t = cc
near_col false false z e t = cc

pub columns-le : (w i : ℕ) → i < num_threads → (i + 1) * (w / num_threads) ≤ w
columns-le w i p =
    let all : num_threads * (w / num_threads) ≤ w = omega arith in
    let some_of : (i + 1) * (w / num_threads) ≤ num_threads * (w / num_threads) = grind arith in
    omega arith

pub scaled : (i n c : ℕ) → i ≤ n → i * c ≤ n * c
scaled i n c p = grind arith

pub next-scaled : (i c : ℕ) → (i + 1) * c ≡ i * c + c
next-scaled i c = grind arith

abbrev pub InFrame : Blur → Pixel → Type 0
InFrame p px = (px.row < p.frame_height) × (px.col < p.frame_width)

module _ {p : Blur} (ok : IsBlur p) (bytes : Between 0 255 p.frame) (res : Image)
    (size : res.size ≡ p.frame_height * p.frame_width * 3) where
  pub works :
      (px : Pixel) (im : Image)
      → InFrame p px
      → im.size ≡ res.size
      → Yields (Did (paints p) (blurred p) px im) (helper_job p px im)
  works px im (a, b) e = elim (Bool-cases (near_end p px.row p.frame_height)) [
    | inl y ↦ rw y (
        yields (record {
          size = refl;
          wrote = λ k t.
              absurd
                (near_row _ (near_end p px.col p.frame_width) (touches p.frame_width px k) y t);
          kept = λ k n. refl;
        }))
    | inr n ↦ elim (Bool-cases (near_end p px.col p.frame_width)) [
      | inl y ↦
          rw (n, y)
            (yields (record {
              size = refl;
              wrote = λ k t.
                  absurd (
                    near_col (near_end p px.row p.frame_height) _ (touches p.frame_width px k) y t);
              kept = λ k n. refl;
            }))
      | inr o ↦
          rw (n, o)
            (Yields-mono (blur_pixel-Did ok bytes px.row px.col im a b (e ∙ size)) λ v did. record {
              size = did.size;
              wrote = λ k t. did.wrote k (sym (last_part n o) ∙ t);
              kept = λ k t. did.kept k (sym (last_part n o) ∙ t);
            })
    ]
  ]

  stripe : (i : ℕ) → i < num_threads → All (InFrame p) (stripe_jobs p i)
  stripe i lt =
      let a = blur_args p i in
      let within = columns-le p.frame_width i lt in
      All-jobs (InFrame p) (a.end_row - a.start_row) (a.end_col - a.start_col) a.start_row
        a.start_col (λ r c x y z w. (omega arith, omega arith))

  pub valid : (i : ℕ) → All (InFrame p) (let s = blur_parallel p res in s.todo i)
  valid i = elim (Bool-cases (ltb i num_threads)) [
    | inl y ↦ rw y (stripe i (ltb→lt i num_threads y))
    | inr o ↦ rw o tt
  ]

  pub no_thread : (i : ℕ) → num_threads ≤ i → (let s = blur_parallel p res in s.todo i) ≡ []
  no_thread i q = rw (not_ltb i num_threads q) refl
