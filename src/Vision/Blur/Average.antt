-- ===== src/Vision/Blur/Average.antt =====
-- The sums of the blur: between the least and the greatest byte of the frame, times the weights.
use final.Base.{
  ℕ, ◌+◌, ◌*◌, ◌/◌, ◌≤◌, ◌<◌, ◌≡◌, refl, arith, Bool, true, false, ◌&&◌, ◌⊎◌, inl, inr, Yields,
  yields, Yields-mono, Bool-cases, subst, ℕ_discrete,
}
use final.Base.Int.{ℤ, pos, negsuc, pos_part, ◌+ℤ◌, ◌-ℤ◌}
use final.Base.Loops.{for_range, for_range-Yields}
use final.Vision.Image.{read-eq, int-eq}
use final.Vision.Blur.{Blur, Sums, no_sums, shifted, inside, blur_tap, blur_sums}
use final.Vision.Blur.Weights.{IsBlur, Between, Averaged, add_pixel-Averaged}

inside-lt : (z : ℤ) (n : ℕ) → inside z n ≡ true → pos_part z < n
inside-lt (pos k) n e = ground arith
inside-lt (negsuc k) n e = ground arith

shifted_centre : (at half n : ℕ) → at < n → inside (shifted at half half) n ≡ true
unfolding ◌+ℤ◌ ◌-ℤ◌
shifted_centre at half n p = ground arith

-- What one table_index of the table does to the sums.
record Tapped (p : Blur) (lo hi n i j : ℕ) (s t : Sums) : Type 0 where
  pub averaged : Averaged lo hi (n + 1) t
  pub grows : s.blur_value_total ≤ t.blur_value_total
  pub centred : i ≡ p.blur_height / 2 → j ≡ p.blur_width / 2 → 0 < t.blur_value_total

both_true : {x y : Bool} → x ≡ true → y ≡ true → (x && y) ≡ true
both_true {x = true} {y = true} a b = refl
both_true {x = true} {y = false} a b = b
both_true {x = false} a b = a

parts : {x y : Bool} → (x && y) ≡ true → (x ≡ true) × (y ≡ true)
parts {x = true} {y = true} e = (refl, refl)
parts {x = true} {y = false} e = cc
parts {x = false} e = cc

module _ {p : Blur} (ok : IsBlur p) {lo hi : ℕ} (between : Between lo hi p.frame) where
  abbrev table_index : ℕ → ℕ → ℕ
  table_index i j = i * p.blur_width + j

  tap_inside :
      (row col i j : ℕ) (s : Sums)
      → i < p.blur_height
      → j < p.blur_width
      → inside (shifted row i (p.blur_height / 2)) p.frame_height ≡ true
      → inside (shifted col j (p.blur_width / 2)) p.frame_width ≡ true
      → Averaged lo hi (table_index i j) s
      → Yields (Tapped p lo hi (table_index i j) i j s) (blur_tap p row col i j s)
  unfolding blur_tap
  tap_inside row col i j s a b in_row in_col avg =
      let v = p.blur_vector in
      let z = shifted row i (p.blur_height / 2) in
      let y = shifted col j (p.blur_width / 2) in
      let below_row = inside-lt z p.frame_height in_row in
      let below_col = inside-lt y p.frame_width in_col in
      let k = pos_part z * p.frame_width + pos_part y in
      let inner : k < p.frame_height * p.frame_width = grind arith in
      let listed : table_index i j < p.blur_height * p.blur_width = grind arith in
      rw
        (
          in_row,
          in_col,
          read-eq v (table_index i j) (omega (arith, ok.size_vector)),
          int-eq (k * 3) (omega (arith, ok.small)),
        )
        (Yields-mono
          (add_pixel-Averaged p.frame lo hi (table_index i j) (v.cells (table_index i j)) (k * 3) s
            between (omega (arith, ok.weights (table_index i j))) (omega (arith, ok.size_frame))
            (omega (arith, ok.small_sums)) avg)
          λ t done. record {
            averaged = done.0;
            grows = omega (arith, done.1);
            centred = λ e f.
                let heavy : 0 < v.cells (table_index i j) = rw (e, f) ok.centre in
                omega (arith, done.1, heavy);
          })

  tap_outside :
      (row col i j : ℕ) (s : Sums)
      → row < p.frame_height
      → col < p.frame_width
      → (inside (shifted row i (p.blur_height / 2)) p.frame_height
          && inside (shifted col j (p.blur_width / 2)) p.frame_width)
        ≡ false
      → Averaged lo hi (table_index i j) s
      → Yields (Tapped p lo hi (table_index i j) i j s) (blur_tap p row col i j s)
  unfolding blur_tap
  tap_outside row col i j s a b out avg = rw out (
      yields (record {
        averaged = record { r = avg.r; g = avg.g; b = avg.b; weight = omega (arith, avg.weight) };
        grows = omega arith;
        centred = λ e f.
            let in_row : inside (shifted row i (p.blur_height / 2)) p.frame_height ≡ true =
              rw e (shifted_centre row (p.blur_height / 2) p.frame_height a) in
            let in_col : inside (shifted col j (p.blur_width / 2)) p.frame_width ≡ true =
              rw f (shifted_centre col (p.blur_width / 2) p.frame_width b) in
            cc (both_true in_row in_col, out);
      }))

  tap :
      (row col i j : ℕ) (s : Sums)
      → row < p.frame_height
      → col < p.frame_width
      → i < p.blur_height
      → j < p.blur_width
      → Averaged lo hi (table_index i j) s
      → Yields (Tapped p lo hi (table_index i j) i j s) (blur_tap p row col i j s)
  tap row col i j s a b c d avg =
      elim (Bool-cases (
        inside (shifted row i (p.blur_height / 2)) p.frame_height
        && inside (shifted col j (p.blur_width / 2)) p.frame_width)) [
          | inl y ↦ let (in_row, in_col) = parts y in tap_inside row col i j s c d in_row in_col avg
          | inr o ↦ tap_outside row col i j s a b o avg
        ]

  -- After the entries before (i, j) the total is positive where the centre is among them.
  record Summed (i j : ℕ) (s : Sums) : Type 0 where
    pub averaged : Averaged lo hi (table_index i j) s
    pub positive :
        (p.blur_height / 2 < i) ⊎ ((i ≡ p.blur_height / 2) × (p.blur_width / 2 < j))
        → 0 < s.blur_value_total

  Summed-next :
      (i j : ℕ) (s t : Sums)
      → Summed i j s
      → Tapped p lo hi (table_index i j) i j s t
      → Summed i (j + 1) t
  Summed-next i j s t m tapped = record {
    averaged = subst (λ n. Averaged lo hi n t) (omega arith) tapped.averaged;
    positive = λ before. elim before [
      | inl above ↦ omega (arith, m.positive (inl above), tapped.grows)
      | inr (e, f) ↦ elim (ℕ_discrete j (p.blur_width / 2)) [
        | yes g ↦ tapped.centred e g
        | no ne ↦ omega (arith, m.positive (inr (e, omega (arith, ne))), tapped.grows)
      ]
    ];
  }

  sums_of_row :
      (row col i : ℕ) (s : Sums)
      → row < p.frame_height
      → col < p.frame_width
      → i < p.blur_height
      → Summed i 0 s
      → Yields (Summed (i + 1) 0) (for_range p.blur_width 0 (blur_tap p row col i) s)
  sums_of_row row col i s a b c m =
      Yields-mono
        (for_range-Yields (Summed i) (blur_tap p row col i) p.blur_width 0 p.blur_width s
          (omega arith)
          (λ j t d e n.
            Yields-mono (tap row col i j t a b c e n.averaged)
              (λ u tapped. Summed-next i j t u n tapped))
          m)
        λ t n. record {
          averaged = subst (λ k. Averaged lo hi k t) (grind arith) n.averaged;
          positive = λ before. n.positive (elim before [
            | inl above ↦ elim (ℕ_discrete i (p.blur_height / 2)) [
              | yes e ↦ inr (e, omega (arith, ok.has_width))
              | no ne ↦ inl (omega (arith, ne))
            ]
            | inr (e, f) ↦ absurd (omega (arith, f))
          ]);
        }

  -- At a pixel of the frame the sums do not fault, and the total is not zero.
  pub blur_sums-Averaged :
      (row col : ℕ)
      → row < p.frame_height
      → col < p.frame_width
      → Yields
          (λ s. Averaged lo hi (p.blur_height * p.blur_width) s × (0 < s.blur_value_total))
          (blur_sums p row col)
  unfolding blur_sums
  blur_sums-Averaged row col a b =
      Yields-mono
        (for_range-Yields (λ i t. Summed i 0 t) _ p.blur_height 0 p.blur_height no_sums
          (omega arith) (λ i t c d m. sums_of_row row col i t a b d m)
          (record {
            averaged = record {
              r = (omega arith, omega arith);
              g = (omega arith, omega arith);
              b = (omega arith, omega arith);
              weight = omega arith;
            };
            positive = λ before. ground arith;
          }))
        λ t m. (
          subst (λ k. Averaged lo hi k t) (omega arith) m.averaged,
          m.positive (inl (omega (arith, ok.has_height))),
        )
