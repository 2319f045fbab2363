-- ===== src/Cluster/Images.antt =====
-- cluster/cluster.go: splitImage and splitTaskDefinitionARN, on the bytes of a text.
use ecstoolkit.Base.{
  ℕ, ℤ, List, [], ◌∷◌, ◌++◌, ◌≡◌, ◌≢◌, refl, Result, ok, err, All, Bool-cases, inl, inr, ◌>>=◌,
  invalid_image, invalid_task_definition, if◌then◌else◌, ◌==◌, arith,
}
use ecstoolkit.Buffer.{Bytes}

-- The text goes before the first part of the others.
abbrev pub onto_first : ℕ → List Bytes → List Bytes
onto_first c [] = (c ∷ []) ∷ []
onto_first c (p ∷ ps) = (c ∷ p) ∷ ps

-- `strings.Split`
unfoldable pub split : ℕ → Bytes → List Bytes
split sep [] = [] ∷ []
split sep (c ∷ s) = let rest = split sep s in if c == sep then [] ∷ rest else onto_first c rest

-- `strings.SplitN` with 2
unfoldable pub split_once : ℕ → Bytes → List Bytes
split_once sep [] = [] ∷ []
split_once sep (c ∷ s) =
    let rest = split_once sep s in if c == sep then [] ∷ s ∷ [] else onto_first c rest

abbrev pub slash : ℕ
slash = 47

abbrev pub colon : ℕ
colon = 58

-- The parts of an image: repo, image and tag.
pub record Image : Type 0 where
  pub repo : Bytes
  pub image : Bytes
  pub tag : Bytes

image_parts : Bytes → List Bytes → Result Image
image_parts repo (image ∷ tag ∷ rest) = ok (record { repo = repo; image = image; tag = tag })
image_parts repo _ = err invalid_image

after_repo : List Bytes → Result Image
unfolding image_parts
after_repo (repo ∷ name ∷ rest) = image_parts repo (split colon name)
after_repo _ = err invalid_image

unfoldable pub split_image : Bytes → Result Image
unfolding after_repo
split_image uri = after_repo (split_once slash uri)

-- The format "%s/%s:%s" of `ReplaceTaskDefinitionTag`.
unfoldable pub join_image : Image → Bytes
join_image i = i.repo ++ (slash ∷ (i.image ++ (colon ∷ i.tag)))

family_parts : (Bytes → Result ℤ) → List Bytes → Result (Bytes × ℤ)
family_parts parse_int (family ∷ revision ∷ rest) = do n ← parse_int revision; ok (family, n)
family_parts parse_int _ = err invalid_task_definition

resource_parts : (Bytes → Result ℤ) → List Bytes → Result (Bytes × ℤ)
unfolding family_parts
resource_parts parse_int (kind ∷ name ∷ rest) = family_parts parse_int (split colon name)
resource_parts parse_int _ = err invalid_task_definition

-- Of the resource of the ARN; `parse_int` is `strconv.ParseInt` with base 10 and 64 bits.
unfoldable pub split_task_definition_arn : (Bytes → Result ℤ) → Bytes → Result (Bytes × ℤ)
unfolding resource_parts
split_task_definition_arn parse_int resource = resource_parts parse_int (split slash resource)

-- The text does not hold the byte.
abbrev pub Lacks : ℕ → Bytes → Type 0
Lacks sep = All (λ c. c ≢ sep)

split_once-append :
    (sep : ℕ) (s t : Bytes) → Lacks sep s → split_once sep (s ++ (sep ∷ t)) ≡ s ∷ t ∷ []
unfolding split_once
split_once-append sep [] t h = ground arith
split_once-append sep (c ∷ s) t (n, h) =
    let rec = split_once-append sep s t h in ground (arith, rec, n)

split_whole : (sep : ℕ) (s : Bytes) → Lacks sep s → split sep s ≡ s ∷ []
unfolding split
split_whole sep [] h = refl
split_whole sep (c ∷ s) (n, h) = let rec = split_whole sep s h in ground (arith, rec, n)

split-append : (sep : ℕ) (s t : Bytes) → Lacks sep s → split sep (s ++ (sep ∷ t)) ≡ s ∷ split sep t
unfolding split
split-append sep [] t h = ground arith
split-append sep (c ∷ s) t (n, h) = let rec = split-append sep s t h in ground (arith, rec, n)

-- What `splitImage` reads from the text that the parts make is the parts, where the repo has no slash, and
-- neither the image nor the tag has a colon.
pub split_image-join_image :
    (i : Image)
    → Lacks slash i.repo
    → Lacks colon i.image
    → Lacks colon i.tag
    → split_image (join_image i) ≡ ok i
unfolding split_image join_image
split_image-join_image i h k l =
    rw
      (
        split_once-append slash i.repo (i.image ++ (colon ∷ i.tag)) h,
        split-append colon i.image i.tag k,
        split_whole colon i.tag l,
      )
      refl

onto_first-Lacks :
    (sep c : ℕ) (parts : List Bytes)
    → c ≢ sep
    → All (Lacks sep) parts
    → All (Lacks sep) (onto_first c parts)
onto_first-Lacks sep c [] n h = ((n, tt), tt)
onto_first-Lacks sep c (p ∷ ps) n (h, k) = ((n, h), k)

split-Lacks : (sep : ℕ) (s : Bytes) → All (Lacks sep) (split sep s)
unfolding split
split-Lacks sep [] = (tt, tt)
split-Lacks sep (c ∷ s) =
    let rec = split-Lacks sep s in
    elim (Bool-cases (c == sep)) [
      | inl e ↦ rw e (tt, rec)
      | inr e ↦ rw e (onto_first-Lacks sep c (split sep s) (ground (arith, e)) rec)
    ]

-- The first part, if there is one, does not hold the byte.
abbrev HeadLacks : ℕ → List Bytes → Type 0
HeadLacks sep [] = Unit {0}
HeadLacks sep (p ∷ ps) = Lacks sep p

onto_first-HeadLacks :
    (sep c : ℕ) (parts : List Bytes)
    → c ≢ sep
    → HeadLacks sep parts
    → HeadLacks sep (onto_first c parts)
onto_first-HeadLacks sep c [] n h = (n, tt)
onto_first-HeadLacks sep c (p ∷ ps) n h = (n, h)

split_once-HeadLacks : (sep : ℕ) (s : Bytes) → HeadLacks sep (split_once sep s)
unfolding split_once
split_once-HeadLacks sep [] = tt
split_once-HeadLacks sep (c ∷ s) =
    let rec = split_once-HeadLacks sep s in
    elim (Bool-cases (c == sep)) [
      | inl e ↦ rw e tt
      | inr e ↦ rw e (onto_first-HeadLacks sep c (split_once sep s) (ground (arith, e)) rec)
    ]

-- The parts that a result has are without the bytes between them.
abbrev IsClean : Result Image → Type 0
IsClean (ok i) = Lacks slash i.repo × Lacks colon i.image × Lacks colon i.tag
IsClean _ = Unit {0}

image_parts-IsClean :
    (repo : Bytes) (parts : List Bytes)
    → Lacks slash repo
    → All (Lacks colon) parts
    → IsClean (image_parts repo parts)
unfolding image_parts
image_parts-IsClean repo [] h k = tt
image_parts-IsClean repo (p ∷ []) h k = tt
image_parts-IsClean repo (p ∷ q ∷ ps) h (k, (l, m)) = (h, k, l)

after_repo-IsClean : (parts : List Bytes) → HeadLacks slash parts → IsClean (after_repo parts)
unfolding after_repo
after_repo-IsClean [] h = tt
after_repo-IsClean (p ∷ []) h = tt
after_repo-IsClean (p ∷ q ∷ ps) h = image_parts-IsClean p (split colon q) h (split-Lacks colon q)

split_image-IsClean : (uri : Bytes) → IsClean (split_image uri)
unfolding split_image
split_image-IsClean uri = after_repo-IsClean (split_once slash uri) (split_once-HeadLacks slash uri)

-- Of a text that `splitImage` takes, the text with another tag has the same repo and image, and that tag,
-- where the tag has no colon.
pub split_image-retag :
    (uri tag : Bytes) (i : Image)
    → split_image uri ≡ ok i
    → Lacks colon tag
    → split_image (join_image (record i { tag = tag })) ≡ ok (record i { tag = tag })
split_image-retag uri tag i e h =
    let (a, b, c) = rw e at (split_image-IsClean uri) in
    split_image-join_image (record i { tag = tag }) a b h
