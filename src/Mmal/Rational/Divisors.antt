-- ===== src/Mmal/Rational/Divisors.antt =====
-- Common divisors of two numbers, and what halving and subtracting them does.
use final.Base.{
  ℕ, ◌+◌, ◌-◌, ◌*◌, ◌/◌, ◌%◌, ◌≤◌, ◌≡◌, sym, ◌∙◌, arith, ap, ℕ_discrete, Bool-cases, inl, inr, leb,
  leb→le, not_leb→lt,
}

abbrev pub Divides : ℕ → ℕ → Type 0
Divides d n = (k : ℕ) × (n ≡ k * d)

pub record IsGcd (g a b : ℕ) : Type 0 where
  pub left : Divides g a
  pub right : Divides g b
  pub greatest : (d : ℕ) → Divides d a → Divides d b → Divides d g

-- Halves and remainders of a product.
product_digit : (k d : ℕ) → k * d ≡ 2 * (k / 2 * d) + k % 2 * d
product_digit k d =
    let digits : k ≡ 2 * (k / 2) + k % 2 = omega arith in
    ap (λ n. n * d) digits ∙ parts (k / 2) (k % 2)
  where
    parts : (h r : ℕ) → (2 * h + r) * d ≡ 2 * (h * d) + r * d
    parts h r = grind arith

product_even : (k d : ℕ) → d % 2 ≡ 0 → (k * d) % 2 ≡ 0
product_even k d e = let split : k * d ≡ 2 * (k * (d / 2)) = grind arith in omega (arith, split)

odd_product : (k d : ℕ) → (k * d) % 2 ≡ 1 → d % 2 ≡ 1
odd_product k d e = elim (ℕ_discrete (d % 2) 0) [
  | yes z ↦ absurd (omega (arith, e, product_even k d z))
  | no ne ↦ omega (arith, ne)
]

-- An odd number that divides a double divides its half.
odd-halves : (d m : ℕ) → d % 2 ≡ 1 → Divides d (2 * m) → Divides d m
odd-halves d m o (k, e) =
    let digit = product_digit k d in
    elim (ℕ_discrete (k % 2) 0) [
      | yes z ↦
          (k / 2, (let gone : k % 2 * d ≡ 0 = rw z (omega arith) in omega (arith, digit, gone, e)))
      | no ne ↦
          let one : k % 2 ≡ 1 = omega (arith, ne) in
          let alone : k % 2 * d ≡ d = rw one (omega arith) in
          absurd (omega (arith, digit, alone, e, o))
    ]

Divides-add : (d a b : ℕ) → Divides d a → Divides d b → Divides d (a + b)
Divides-add d a b (k, e) (l, f) = (k + l, grind arith)

Divides-minus : (d a b : ℕ) → Divides d (a + b) → Divides d b → Divides d a
Divides-minus d a b (k, e) (l, f) = (
  k - l,
  elim (Bool-cases (leb l k)) [
    | inl y ↦
        let le = leb→le l k y in
        let whole : k ≡ k - l + l = omega (arith, le) in
        let split : k * d ≡ (k - l) * d + l * d = ap (λ n. n * d) whole ∙ distributed (k - l) l in
        omega (arith, split, e, f)
    | inr o ↦
        let lt = not_leb→lt l k o in
        let gone : k - l ≡ 0 = omega (arith, lt) in
        let more : k * d ≤ l * d = grind arith in
        let nothing : 0 * d ≡ 0 = omega arith in rw gone (omega (arith, more, e, f, nothing))
  ],
)
  where
    distributed : (x y : ℕ) → (x + y) * d ≡ x * d + y * d
    distributed x y = grind arith

pub IsGcd-swap : {g a b : ℕ} → IsGcd g a b → IsGcd g b a
IsGcd-swap i = record { left = i.right; right = i.left; greatest = λ d p q. i.greatest d q p }

pub IsGcd-zero : (b : ℕ) → IsGcd b 0 b
IsGcd-zero b = record { left = (0, omega arith); right = (1, omega arith); greatest = λ d p q. q }

-- Beside an odd number a factor 2 is not shared.
pub IsGcd-double : (g m b : ℕ) → b % 2 ≡ 1 → IsGcd g m b → IsGcd g (2 * m) b
IsGcd-double g m b o i = record {
  left = let (k, e) = i.left in (2 * k, grind arith);
  right = i.right;
  greatest = λ d p q.
      let (k, e) = q in
      i.greatest d (odd-halves d m (odd_product k d (ap (λ n. n % 2) (sym e) ∙ o)) p) q;
}

pub IsGcd-add : (g a b : ℕ) → IsGcd g a b → IsGcd g (a + b) b
IsGcd-add g a b i = record {
  left = Divides-add g a b i.left i.right;
  right = i.right;
  greatest = λ d p q. i.greatest d (Divides-minus d a b p q) q;
}

doubled : (k d : ℕ) → d ≡ 2 * (d / 2) → k * d ≡ 2 * (k * (d / 2))
doubled k d twice = grind arith

halved : (k d a : ℕ) → d ≡ 2 * (d / 2) → 2 * a ≡ k * d → a ≡ k * (d / 2)
halved k d a twice e =
    let split : k * d ≡ 2 * (k * (d / 2)) = grind arith in omega (arith, split, e)

-- The factor 2 that both have.
pub IsGcd-both : (g a b : ℕ) → IsGcd g a b → IsGcd (2 * g) (2 * a) (2 * b)
IsGcd-both g a b i = record {
  left = let (k, e) = i.left in (k, grind arith);
  right = let (k, e) = i.right in (k, grind arith);
  greatest = λ d p q. elim (ℕ_discrete (d % 2) 0) [
    | yes z ↦
        let twice : d ≡ 2 * (d / 2) = omega (arith, z) in
        let (k, e) = p in
        let (l, f) = q in
        let (n, h) = i.greatest (d / 2) (k, halved k d a twice e) (l, halved l d b twice f) in
        let split : n * d ≡ 2 * (n * (d / 2)) = doubled n d twice in (n, omega (arith, split, h))
    | no ne ↦
        let o : d % 2 ≡ 1 = omega (arith, ne) in
        let (n, h) = i.greatest d (odd-halves d a o p) (odd-halves d b o q) in (2 * n, grind arith)
  ];
}
