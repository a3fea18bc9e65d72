-- ===== src/Vision/Detect/Whole.antt =====
-- blob_detect as a whole.
use final.Base.{
  ℕ, ◌+◌, ◌*◌, ◌/◌, ◌≤◌, ◌<◌, ◌≡◌, refl, ap, ◌∙◌, arith, inl, inr, ◌⊎◌, Bool-cases, true, Yields,
  yields, Yields-mono, Yields-bind,
}
use final.Base.Sums.{le-total}
use final.Vision.Image.{Image}
use final.Vision.Scan.{Inner}
use final.Vision.Blobs.{Blob, Table}
use final.Vision.Blobs.Labelled.{masses, mass_at, entry-eq}
use final.Vision.Blobs.Step.{Fits}
use final.Vision.Blobs.Loops.{active_pixels, Labelled-start, label_pixels-Labelled}
use final.Vision.Blobs.Redirect.{redirect-Redirected}
use final.Vision.Detect.{fill_biggest, on_rail, on_cross, no_labels, blob_detect, Detected}
use final.Vision.Detect.Merge.{Listed, Merging-Merged, merge_blobs-Merging}
use final.Vision.Detect.Biggest.{find_biggest-Greatest}
use final.Vision.Detect.Picture.{drawn, recolour-Scanned, draw-Scanned}

-- A mask of `width` by `height` pixels with less than a quarter of them active, and an output of zeros.
pub record IsMask (input output : Image) (width height : ℕ) : Type 0 where
  pub size_in : input.size ≡ height * width
  pub size_out : output.size ≡ height * width
  pub blank : (k : ℕ) → output.cells k ≡ 0
  pub few : active_pixels input width height < width * height / 4
  pub fits : Fits width height (width * height / 4)

rail_white : (b : Blob) (row col v : ℕ) → on_rail b row col ≡ true → drawn b row col v ≡ 255
rail_white b row col v e = elim (Bool-cases (on_cross b row col)) [
  | inl y ↦ rw y refl
  | inr n ↦ rw (n, e) refl
]

-- What is found in the mask.
pub record Detects (stack : ℕ → Blob) (biggest_blob : Blob) (input : Image) (width height : ℕ)
    (d : Detected) : Type 0 where
  pub list : Table
  pub listed : (k : ℕ) → k < d.num_blobs → Listed width height k (list.blob k)
  pub all : masses list d.num_blobs ≡ active_pixels input width height
  pub greatest : (k : ℕ) → k < d.num_blobs → mass_at list k ≤ (let b = d.biggest_blob in b.mass)
  pub index : ℕ
  pub biggest : d.biggest_blob ≡ fill_biggest (list.blob index) biggest_blob
  pub found : (index < d.num_blobs) ⊎ ((d.num_blobs ≡ 0) × (list.blob index ≡ stack 0))
  pub size : (let o = d.output in o.size) ≡ height * width
  pub framed :
      (row col : ℕ)
      → Inner width height row col
      → on_rail d.biggest_blob row col ≡ true
      → (let o = d.output in o.cells (row * width + col)) ≡ 255

pub blob_detect-Detects :
    {input output : Image} {width height : ℕ} (stack : ℕ → Blob) (biggest_blob : Blob)
    → IsMask input output width height
    → Yields
        (Detects stack biggest_blob input width height)
        (blob_detect stack biggest_blob output input width height)
unfolding blob_detect
blob_detect-Detects {input} {output} {width} {height} stack biggest_blob m =
    let room = width * height / 4 in
    Yields-bind
      (label_pixels-Labelled input m.fits m.size_in (no_labels output width height) m.few
        (Labelled-start width height room output m.size_out m.blank))
      λ s n.
        let c = n.counted in
        let t = s.blobs in
        let in_use : s.label_counter ≤ t.entries = omega (arith, c.few, c.entries, m.few) in
        Yields-bind (redirect-Redirected t in_use c.first c.blobs) λ u (r, b).
          let in_use_u : s.label_counter ≤ u.entries = omega (arith, in_use, r.entries) in
          Yields-bind (merge_blobs-Merging stack m.fits (omega (arith, m.few)) in_use_u c.first b)
            λ v g.
              let merged = Merging-Merged g in
              let v_blobs = v.blobs in
              let list = v.consolidated_blobs in
              Yields-bind
                (recolour-Scanned s.output n.size v_blobs
                  (λ k. omega (arith, n.cells k, merged.entries, in_use_u)))
                λ o sc.
                  Yields-bind
                    (find_biggest-Greatest list v.num_blobs
                      (omega (arith, merged.few, merged.room)))
                    λ i gr.
                      let inside : i < list.entries = elim gr.among [
                        | inl p ↦ omega (arith, merged.few, merged.room)
                        | inr (_, e) ↦ omega (arith, e, merged.few, merged.room)
                      ] in
                      let big = fill_biggest (list.blob i) biggest_blob in
                      rw (entry-eq list i inside) (
                        Yields-bind (draw-Scanned o (sc.size ∙ n.size) big) λ d ds. yields (record {
                          list = list;
                          listed = merged.listed;
                          all = merged.mass;
                          greatest = gr.greatest;
                          index = i;
                          biggest = refl;
                          found = elim gr.among [
                            | inl q ↦ inl q
                            | inr (e, f) ↦
                                inr (e, merged.untouched i (omega (arith, e)) ∙ ap stack f)
                          ];
                          size = ds.size ∙ sc.size ∙ n.size;
                          framed = λ row col x y. ds.inner row col x ∙ rail_white big row col _ y;
                        }))

-- In a mask without active pixels no blob is found, and what is reported as the greatest is what
-- happened to stand in the first entry of the array that was not initialised.
pub blob_detect_dark :
    {input output : Image} {width height : ℕ} (stack : ℕ → Blob) (biggest_blob : Blob)
    → IsMask input output width height
    → active_pixels input width height ≡ 0
    → Yields
        (λ d. (d.num_blobs ≡ 0) × (d.biggest_blob ≡ fill_biggest (stack 0) biggest_blob))
        (blob_detect stack biggest_blob output input width height)
blob_detect_dark stack biggest_blob m dark =
    Yields-mono (blob_detect-Detects stack biggest_blob m) λ d x. elim x.found [
      | inl p ↦
          let first = le-total (mass_at x.list) d.num_blobs 0 (omega arith) in
          let b = x.listed 0 (omega arith) in
          let heavy : 0 < mass_at x.list 0 = (let z = b.sound in z.heavy) in
          absurd (omega (arith, first, x.all, dark, heavy))
      | inr (e, f) ↦ (e, x.biggest ∙ ap (λ b. fill_biggest b biggest_blob) f)
    ]
