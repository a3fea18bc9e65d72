-- ===== src/Vision/Detect/Picture.antt =====
-- The picture: labels replaced by the labels of their blobs, brightened, and drawn over.
use final.Base.{
  ℕ, ◌+◌, ◌*◌, ◌<◌, ◌≡◌, refl, ◌∙◌, arith, some, ◌==◌, if◌then◌else◌, Bool, true, false, Bool-cases,
  inl, inr, update, update_self, update_other, Yields, yields, ◌>>=◌, ==_iff,
}
use final.Vision.Image.{Image, write, read-eq, write-eq, index-lt}
use final.Vision.Scan.{Inner, Changed, Scanned, scan}
use final.Vision.Blobs.{Blob, Table, ushort}
use final.Vision.Blobs.Labelled.{entry-eq}
use final.Vision.Blobs.Redirect.{label_at}
use final.Vision.Detect.{recolour_pixel, recolour, on_rail, on_cross, draw_pixel, draw}

-- A pixel that was labelled shows the label of its blob.
abbrev pub shown : Table → ℕ → ℕ
shown t lbl = if lbl == 0 then 0 else ushort (label_at t lbl)

-- A pixel of the box or the cross is white, and any other 30 times as bright as its label.
abbrev pub drawn : Blob → ℕ → ℕ → ℕ → ℕ
drawn b row col lbl =
    if on_cross b row col then 255 else if on_rail b row col then 255 else ushort (lbl * 30)

Changed-update : (im : Image) (k v : ℕ) → Changed im k v (record im { cells = update im.cells k v })
Changed-update im k v = record {
  size = refl;
  at = update_self im.cells k v;
  others = λ i ne. update_other im.cells k v i ne;
}

Changed-again :
    {im new : Image} {k v : ℕ} (w : ℕ)
    → Changed im k v new
    → Changed im k w (record new { cells = update new.cells k w })
Changed-again {new} {k} w m = record {
  size = m.size;
  at = update_self new.cells k w;
  others = λ i ne. update_other new.cells k w i ne ∙ m.others i ne;
}

-- What is written over the brightened label.
paints :
    (rail cross : Bool) (k v : ℕ) (im : Image)
    → k < im.size
    → Yields (Changed im k (if cross then 255 else if rail then 255 else v)) (
        (if rail
          then write (record im { cells = update im.cells k v }) k 255
          else some (record im { cells = update im.cells k v }))
        >>= λ boxed. if cross then write boxed k 255 else some boxed)
paints false false k v im p = yields (Changed-update im k v)
paints false true k v im p =
    let bright : Image = record im { cells = update im.cells k v } in
    rw (write-eq bright k 255 p) (yields (Changed-again 255 (Changed-update im k v)))
paints true false k v im p =
    let bright : Image = record im { cells = update im.cells k v } in
    rw (write-eq bright k 255 p) (yields (Changed-again 255 (Changed-update im k v)))
paints true true k v im p =
    let bright : Image = record im { cells = update im.cells k v } in
    let boxed : Image = record bright { cells = update bright.cells k 255 } in
    rw (write-eq bright k 255 p, write-eq boxed k 255 p)
      (yields (Changed-again 255 (Changed-again 255 (Changed-update im k v))))

module _ {width height : ℕ} (old : Image) (size : old.size ≡ height * width) where
  inside_image :
      (r c : ℕ) (im : Image) → Inner width height r c → im.size ≡ old.size → r * width + c < im.size
  inside_image r c im i e =
      let inside =
        index-lt width height r c (omega (arith, i.row_high)) (omega (arith, i.col_high)) in
      omega (arith, e, size)

  recolours :
      (t : Table)
      → ((k : ℕ) → old.cells k < t.entries)
      → (r c : ℕ) (im : Image) → Inner width height r c
      → im.size ≡ old.size
      → im.cells (r * width + c) ≡ old.cells (r * width + c)
      → Yields
          (Changed im (r * width + c) (shown t (old.cells (r * width + c))))
          (recolour_pixel t width r c im)
  unfolding recolour_pixel
  recolours t known r c im i e same =
      let k = r * width + c in
      let p = inside_image r c im i e in
      let lbl = old.cells k in
      rw (read-eq im k p, same)
        (elim (Bool-cases (lbl == 0)) [
          | inl y ↦ rw y (
              yields
                (record { size = refl; at = same ∙ (==_iff lbl 0).0 y; others = λ j ne. refl }))
          | inr n ↦
              rw (n, entry-eq t lbl (known k), write-eq im k (ushort (label_at t lbl)) p)
                (yields (Changed-update im k (ushort (label_at t lbl))))
        ])

  draws :
      (b : Blob) (r c : ℕ) (im : Image)
      → Inner width height r c
      → im.size ≡ old.size
      → im.cells (r * width + c) ≡ old.cells (r * width + c)
      → Yields
          (Changed im (r * width + c) (drawn b r c (old.cells (r * width + c))))
          (draw_pixel b width r c im)
  unfolding draw_pixel
  draws b r c im i e same =
      let k = r * width + c in
      let p = inside_image r c im i e in
      rw (read-eq im k p, same, write-eq im k (ushort (old.cells k * 30)) p)
        (paints (on_rail b r c) (on_cross b r c) k (ushort (old.cells k * 30)) im p)

  -- The labels of the image are entries of the table.
  pub recolour-Scanned :
      (t : Table)
      → ((k : ℕ) → old.cells k < t.entries)
      → Yields
          (Scanned width height (λ r c. shown t (old.cells (r * width + c))) old)
          (recolour t width height old)
  unfolding recolour
  recolour-Scanned t known = scan (recolour_pixel t width) (recolours t known)

  pub draw-Scanned :
      (b : Blob)
      → Yields
          (Scanned width height (λ r c. drawn b r c (old.cells (r * width + c))) old)
          (draw b width height old)
  unfolding draw
  draw-Scanned b = scan (draw_pixel b width) (draws b)
