-- ===== src/Afu/Dma/Spaced.antt =====
-- drivers/fpga/dfl-afu-dma-region.c: regions in order and apart from one another.
use linux_dfl_backport.Base.{
  ◌+◌, ◌^◌, ◌≤◌, ◌<◌, ◌≡◌, sym, subst, List, [], ◌∷◌, ◌++◌, All, ◌⊎◌, inl, inr,
}
use linux_dfl_backport.Afu.Dma.Region.{Region}

abbrev pub Before : Region → Region → Type 0
Before a b = a.iova + a.length ≤ b.iova

abbrev pub IsArea : Region → Type 0
IsArea a = (0 < a.length) × (a.iova + a.length < 2 ^ 64)

abbrev pub IsSpaced : List Region → Type 0
IsSpaced [] = Unit
IsSpaced (x ∷ xs) = IsArea x × All (Before x) xs × IsSpaced xs

-- The region is an entry of the list.
abbrev pub Has : Region → List Region → Type 0
Has a [] = ⊥
Has a (x ∷ xs) = (a ≡ x) ⊎ Has a xs

pub Has-append : (a : Region) (xs ys : List Region) → Has a (xs ++ ys) → Has a xs ⊎ Has a ys
Has-append a [] ys h = inr h
Has-append a (x ∷ xs) ys (inl e) = inl (inl e)
Has-append a (x ∷ xs) ys (inr h) = elim (Has-append a xs ys h) [
  | inl k ↦ inl (inr k)
  | inr k ↦ inr k
]

pub Has-append_left : (a : Region) (xs ys : List Region) → Has a xs → Has a (xs ++ ys)
Has-append_left a [] ys h = absurd h
Has-append_left a (x ∷ xs) ys (inl e) = inl e
Has-append_left a (x ∷ xs) ys (inr h) = inr (Has-append_left a xs ys h)

pub Has-append_right : (a : Region) (xs ys : List Region) → Has a ys → Has a (xs ++ ys)
Has-append_right a [] ys h = h
Has-append_right a (x ∷ xs) ys h = inr (Has-append_right a xs ys h)

pub All-Has {κ} : (P : Region → Type κ) (a : Region) (xs : List Region) → All P xs → Has a xs → P a
All-Has P a [] h k = absurd k
All-Has P a (x ∷ xs) h (inl e) = subst P (sym e) h.0
All-Has P a (x ∷ xs) h (inr k) = All-Has P a xs h.1 k

pub All-split {κ} :
    (P : Region → Type κ) (xs ys : List Region) → All P (xs ++ ys) → All P xs × All P ys
All-split P [] ys h = (tt, h)
All-split P (x ∷ xs) ys h = let (a, b) = All-split P xs ys h.1 in ((h.0, a), b)

pub All-join {κ} :
    (P : Region → Type κ) (xs ys : List Region) → All P xs → All P ys → All P (xs ++ ys)
All-join P [] ys h k = k
All-join P (x ∷ xs) ys h k = (h.0, All-join P xs ys h.1 k)

-- Every region of the first list stands before every one of the second.
abbrev pub AllBefore : List Region → List Region → Type 0
AllBefore xs ys = All (λ x. All (Before x) ys) xs

pub IsSpaced-split :
    (xs ys : List Region) → IsSpaced (xs ++ ys) → IsSpaced xs × IsSpaced ys × AllBefore xs ys
IsSpaced-split [] ys h = (tt, h, tt)
IsSpaced-split (x ∷ xs) ys h =
    let (a, b, c) = IsSpaced-split xs ys h.2 in
    let (d, e) = All-split (Before x) xs ys h.1 in ((h.0, d, a), b, (e, c))

pub IsSpaced-join :
    (xs ys : List Region) → IsSpaced xs → IsSpaced ys → AllBefore xs ys → IsSpaced (xs ++ ys)
IsSpaced-join [] ys h k b = k
IsSpaced-join (x ∷ xs) ys h k b =
    (h.0, All-join (Before x) xs ys h.1 b.0, IsSpaced-join xs ys h.2 k b.1)

-- Removing a region keeps the others apart.
pub IsSpaced-remove :
    (xs ys : List Region) (x : Region) → IsSpaced (xs ++ (x ∷ ys)) → IsSpaced (xs ++ ys)
IsSpaced-remove [] ys x h = h.2
IsSpaced-remove (y ∷ xs) ys x h =
    let (a, b) = All-split (Before y) xs (x ∷ ys) h.1 in
    (h.0, All-join (Before y) xs ys a b.1, IsSpaced-remove xs ys x h.2)

-- A region that lies clear of another, on either side.
abbrev pub Apart : Region → Region → Type 0
Apart a b = Before a b ⊎ Before b a
