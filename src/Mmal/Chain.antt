-- ===== src/Mmal/Chain.antt =====
-- Chains of buffer headers through their `next` fields, as lists of addresses.
use final.Base.{◌≡◌, refl, ◌≢◌, true, false, List, [], ◌∷◌, ◌==◌, if◌then◌else◌, not_zero, has}
use final.Base.Chains.{Links, Links-frame, last_from}
use final.Mmal.World.{Ptr, null, Header, Slot, first_slot, next_slot}

-- From `p` the `next` fields lead through the distinct headers `xs` to NULL.
abbrev pub Chain : (Ptr → Header) → Ptr → List Ptr → Type 0
Chain hs p xs = Links (λ a. (hs a).next) p xs

-- The slot that holds the chain's final NULL.
abbrev pub end_slot : List Ptr → Slot
end_slot [] = first_slot
end_slot (x ∷ xs) = next_slot (last_from x xs)

-- A chain survives any change that spares the `next` fields of its own headers.
pub Chain-frame :
    (hs gs : Ptr → Header) (p : Ptr) (xs : List Ptr)
    → ((a : Ptr) → has a xs ≡ true → (gs a).next ≡ (hs a).next)
    → Chain hs p xs
    → Chain gs p xs
Chain-frame hs gs p xs same c = Links-frame p xs same c

-- A header whose `next` is the head of a chain that it is not on lengthens the chain in front.
pub Chain-cons :
    (hs gs : Ptr → Header) (p b : Ptr) (xs : List Ptr)
    → b ≢ null
    → has b xs ≡ false
    → (gs b).next ≡ p
    → ((a : Ptr) → has a xs ≡ true → (gs a).next ≡ (hs a).next)
    → Chain hs p xs
    → Chain gs b (b ∷ xs)
Chain-cons hs gs p b xs nz out e same c = (refl, nz, out, rw e (Chain-frame hs gs p xs same c))

-- The last slot stays right when the first of two or more headers is taken, and is reset to
-- `&queue->first` when the only one is.
pub end_slot-tail :
    (hs : Ptr → Header) (x n : Ptr) (xs : List Ptr)
    → Chain hs n xs
    → (if n == null then first_slot else end_slot (x ∷ xs)) ≡ end_slot xs
end_slot-tail hs x n [] c = rw c
end_slot-tail hs x n (y ∷ ys) c = rw (c.0, not_zero y c.1)
