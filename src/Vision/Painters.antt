-- ===== src/Vision/Painters.antt =====
-- Threads that paint the same image: each has a list of jobs, and the jobs of different threads run
-- in any order.
use final.Base.{
  ℕ, ◌≡◌, refl, sym, ◌∙◌, ◌⊎◌, inl, inr, Bool, true, false, Option, some, List, [], ◌∷◌, arith,
  update, Yields, Yields-eq, Bool-cases, ap, ℕ_discrete, subst, update_self, update_other,
  Yields-gives, ltb, ltb→lt, not_ltb→le, ◌<◌, ◌≤◌, zero, suc, ◌≢◌,
}
use final.Vision.Image.{Image}

pub record Painting (Job : Type 0) : Type 0 where
  pub image : Image
  pub todo : ℕ → List Job

module _ {Job : Type 0} where
  -- Some thread does its next job.
  pub data Step (work : Job → Image → Option Image) (s : Painting Job) : Painting Job → Type 0 where
    does :
        (t : ℕ) (j : Job) (js : List Job) (im : Image)
        → s.todo t ≡ j ∷ js
        → work j s.image ≡ some im
        → Step work s (record { image = im; todo = update s.todo t js })

  pub data Reach (work : Job → Image → Option Image) (s : Painting Job)
      : Painting Job → Type 0 where
    here : Reach work s s
    next : {t u : Painting Job} → Reach work s t → Step work t u → Reach work s u

  pub Reach-after :
      {work : Job → Image → Option Image} {s t u : Painting Job}
      → Reach work s t
      → Reach work t u
      → Reach work s u
  Reach-after r here = r
  Reach-after r (next q st) = next (Reach-after r q) st

  -- One of the jobs writes cell `k`.
  abbrev pub Covers : (Job → ℕ → Bool) → ℕ → List Job → Type 0
  Covers touches k [] = ⊥
  Covers touches k (j ∷ js) = (touches j k ≡ true) ⊎ Covers touches k js

  abbrev pub All : (Job → Type 0) → List Job → Type 0
  All V [] = Unit
  All V (j ∷ js) = V j × All V js

-- The job wrote the values to its cells and nothing else.
pub record Did {Job : Type 0} (touches : Job → ℕ → Bool) (value : ℕ → ℕ) (j : Job) (im new : Image)
    : Type 0 where
  pub size : new.size ≡ im.size
  pub wrote : (k : ℕ) → touches j k ≡ true → new.cells k ≡ value k
  pub kept : (k : ℕ) → touches j k ≡ false → new.cells k ≡ im.cells k

module _ {Job : Type 0} (work : Job → Image → Option Image) (touches : Job → ℕ → Bool)
    (value : ℕ → ℕ) (V : Job → Type 0) (start : Painting Job)
    (works : (j : Job) (im : Image)
      → V j
      → im.size ≡ start.image.size
      → Yields (Did touches value j im) (work j im)) where
  abbrev Covered : ℕ → Type 0
  Covered k = (t : ℕ) × Covers touches k (start.todo t)

  record Progress (s : Painting Job) : Type 0 where
    pub size : s.image.size ≡ start.image.size
    pub valid : (t : ℕ) → All V (s.todo t)
    pub left : (t k : ℕ) → Covers touches k (s.todo t) → Covers touches k (start.todo t)
    pub settled :
        (k : ℕ) → Covered k → (s.image.cells k ≡ value k) ⊎ ((t : ℕ) × Covers touches k (s.todo t))
    pub kept : (k : ℕ) → ¬ Covered k → s.image.cells k ≡ start.image.cells k

  -- What the step leaves to do: thread `t` lost its first job.
  still :
      (s : Painting Job) (t : ℕ) (j : Job) (js : List Job) (P : List Job → Type 0)
      → s.todo t ≡ j ∷ js
      → (P (j ∷ js) → P js)
      → (i : ℕ) → P (s.todo i)
      → P (update s.todo t js i)
  still s t j js P e drop i p = elim (ℕ_discrete t i) [
    | yes q ↦
        subst (λ x. P (update s.todo t js x)) q
          (subst P (sym (update_self s.todo t js)) (drop (subst P (ap s.todo (sym q) ∙ e) p)))
    | no ne ↦ subst P (sym (update_other s.todo t js i ne)) p
  ]

  left_of :
      (s : Painting Job) (t : ℕ) (j : Job) (js : List Job) (k : ℕ)
      → s.todo t ≡ j ∷ js
      → (i : ℕ) → Covers touches k (update s.todo t js i)
      → Covers touches k (s.todo i)
  left_of s t j js k e i c = elim (ℕ_discrete t i) [
    | yes q ↦
        subst (λ x. Covers touches k (s.todo x)) q
          (subst (Covers touches k) (sym e) (
            inr (
              subst (Covers touches k) (ap (update s.todo t js) (sym q) ∙ update_self s.todo t js)
                c)))
    | no ne ↦ subst (Covers touches k) (update_other s.todo t js i ne) c
  ]

  -- A cell that was to be written by the job is settled, and the jobs that wait still wait.
  settles :
      (s : Painting Job) (t : ℕ) (j : Job) (js : List Job) (im : Image)
      → s.todo t ≡ j ∷ js
      → Did touches value j s.image im
      → (k : ℕ) → (s.image.cells k ≡ value k) ⊎ ((i : ℕ) × Covers touches k (s.todo i))
      → (im.cells k ≡ value k) ⊎ ((i : ℕ) × Covers touches k (update s.todo t js i))
  settles s t j js im e did k before = elim (Bool-cases (touches j k)) [
    | inl y ↦ inl (did.wrote k y)
    | inr n ↦ elim before [
      | inl v ↦ inl (did.kept k n ∙ v)
      | inr (i, c) ↦ inr (
        i,
        still s t j js (Covers touches k) e
            (λ d. elim d [ inl y ↦ absurd (ground arith) | inr r ↦ r ]) i c,
      )
    ]
  ]

  Step-Progress : {s u : Painting Job} → Progress s → Step work s u → Progress u
  Step-Progress {s} p (does t j js im e w) =
      let valid_t : All V (j ∷ js) = subst (All V) e (p.valid t) in
      let did = Yields-eq (works j s.image valid_t.0 p.size) w in
      record {
        size = did.size ∙ p.size;
        valid = λ i. still s t j js (All V) e (λ v. v.1) i (p.valid i);
        left = λ i k c. p.left i k (left_of s t j js k e i c);
        settled = λ k c. settles s t j js im e did k (p.settled k c);
        kept = λ k out. elim (Bool-cases (touches j k)) [
          | inl y ↦ absurd (out (t, p.left t k (subst (Covers touches k) (sym e) (inl y))))
          | inr n ↦ did.kept k n ∙ p.kept k out
        ];
      }

  Reach-Progress : {s : Painting Job} → Progress start → Reach work start s → Progress s
  Reach-Progress p here = p
  Reach-Progress p (next r st) = Step-Progress (Reach-Progress p r) st

  Progress-start : ((t : ℕ) → All V (start.todo t)) → Progress start
  Progress-start valid = record {
    size = refl;
    valid = valid;
    left = λ t k c. c;
    settled = λ k c. inr c;
    kept = λ k out. refl;
  }

  -- What an image should be once all threads are done.
  pub record Painted (im : Image) : Type 0 where
    pub size : im.size ≡ start.image.size
    pub painted : (t k : ℕ) → Covers touches k (start.todo t) → im.cells k ≡ value k
    pub kept :
        (k : ℕ) → ((t : ℕ) → Covers touches k (start.todo t) → ⊥) → im.cells k ≡ start.image.cells k

  -- In whatever order the threads ran, once none has a job left the image is painted.
  pub Reach-Painted :
      {s : Painting Job}
      → ((t : ℕ) → All V (start.todo t))
      → Reach work start s
      → ((t : ℕ) → s.todo t ≡ [])
      → Painted s.image
  Reach-Painted {s} valid r over =
      let p = Reach-Progress (Progress-start valid) r in
      record {
        size = p.size;
        painted = λ t k c. elim (p.settled k (t, c)) [
          | inl v ↦ v
          | inr (i, d) ↦ absurd (subst (Covers touches k) (over i) d)
        ];
        kept = λ k out. p.kept k (λ c. out c.0 c.1);
      }

  -- No thread is ever stuck: its next job does not fault.
  pub Reach-work :
      {s : Painting Job} (t : ℕ) (j : Job) (js : List Job)
      → ((t : ℕ) → All V (start.todo t))
      → Reach work start s
      → s.todo t ≡ j ∷ js
      → Yields (Did touches value j s.image) (work j s.image)
  Reach-work {s} t j js valid r e =
      let p = Reach-Progress (Progress-start valid) r in
      let valid_t : All V (j ∷ js) = subst (All V) e (p.valid t) in works j s.image valid_t.0 p.size

  -- Thread `t` can run to its end, and the others wait.
  abbrev Drains : Painting Job → ℕ → Type 0
  Drains s t =
      (u : Painting Job) × Reach work s u
      × (u.todo t ≡ [])
      × ((i : ℕ) → t ≢ i → u.todo i ≡ s.todo i)

  drain :
      (js : List Job) {s : Painting Job} (t : ℕ)
      → ((t : ℕ) → All V (start.todo t))
      → Reach work start s
      → s.todo t ≡ js
      → Drains s t
  drain [] {s} t valid r e = (s, here, e, λ i ne. refl)
  drain (j ∷ js) {s} t valid r e =
      let (im, w) = Yields-gives (Reach-work t j js valid r e) in
      let step = does t j js im e w in
      let (u, r', over, others) = drain js t valid (next r step) (update_self s.todo t js) in
      (
        u,
        Reach-after (next here step) r',
        over,
        λ i ne. others i ne ∙ update_other s.todo t js i ne,
      )

  drain_below :
      (n : ℕ) {s : Painting Job}
      → ((t : ℕ) → All V (start.todo t))
      → Reach work start s
      → (u : Painting Job) × Reach work s u
        × ((t : ℕ) → t < n → u.todo t ≡ [])
        × ((t : ℕ) → n ≤ t → u.todo t ≡ s.todo t)
  drain_below zero {s} valid r = (s, here, λ t p. absurd (omega arith), λ t p. refl)
  drain_below (suc n) {s} valid r =
      let (u, ru, over, others) = drain_below n valid r in
      let (v, rv, last, same) = drain (u.todo n) n valid (Reach-after r ru) refl in
      (
        v,
        Reach-after ru rv,
        λ t p. elim (ℕ_discrete n t) [
          | yes e ↦ subst (λ x. v.todo x ≡ []) e last
          | no ne ↦ same t ne ∙ over t (omega (arith, ne))
        ],
        λ t p. same t (omega arith) ∙ others t (omega arith),
      )

  no_more : {s : Painting Job} (t : ℕ) → Reach work start s → start.todo t ≡ [] → s.todo t ≡ []
  no_more t here e = e
  no_more t (next {t = p} r (does i j js im f w)) e = elim (ℕ_discrete i t) [
    | yes q ↦ absurd (nothing (sym (no_more t r e) ∙ ap p.todo (sym q) ∙ f))
    | no ne ↦ update_other p.todo i js t ne ∙ no_more t r e
  ]
    where
      nothing : {j : Job} {js : List Job} → [] ≡ j ∷ js → ⊥
      nothing q = cc

  -- Threads of which only the first `n` have jobs can always run to their end.
  pub Reach-ends :
      (n : ℕ) {s : Painting Job}
      → ((t : ℕ) → All V (start.todo t))
      → ((t : ℕ) → n ≤ t → start.todo t ≡ [])
      → Reach work start s
      → (u : Painting Job) × Reach work s u × ((t : ℕ) → u.todo t ≡ [])
  Reach-ends n {s} valid few r =
      let (u, ru, over, others) = drain_below n valid r in
      (
        u,
        ru,
        λ t. elim (Bool-cases (ltb t n)) [
          | inl y ↦ over t (ltb→lt t n y)
          | inr o ↦ others t (not_ltb→le t n o) ∙ no_more t r (few t (not_ltb→le t n o))
        ],
      )
