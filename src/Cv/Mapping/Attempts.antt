-- ===== src/Cv/Mapping/Attempts.antt =====
-- The images that the loop over the chunks hands to the stitcher (`processChunk` of
-- src/cv/mapping.cpp).
use obcpp.Base.{
  ℕ, zero, suc, ◌+◌, ◌<◌, ◌≡◌, refl, sym, inl, inr, Bool, true, false, some, List, [], ◌∷◌, ◌++◌,
  arith, if◌then◌else◌, Option-cases, length, get_elem?,
}
use mathlib.Core.List.{append_assoc, append-nil}
use obcpp.Cv.Mapping.{
  chunk_file, Text, Opencv, MappingState, returned, gather, process_chunk, process_chunks,
  drop_names, global_stitch,
}
use obcpp.Cv.Mapping.Chunks.{image_at}

abbrev pub At {ℓ} : {A : Type ℓ} → List A → A → Type ℓ
At xs x = (i : ℕ) × (get_elem? xs i ≡ some x)

-- In one of the lists.
abbrev pub Attempted : {Image : Type 0} → List (List Image) → Image → Type 0
Attempted {Image} batch x = (imgs : List Image) × At batch imgs × At imgs x

get_elem?_inside :
    {A : Type 0} (xs : List A) (i : ℕ) → i < length xs → (x : A) × (get_elem? xs i ≡ some x)
get_elem?_inside [] i h = absurd (omega (arith, h))
get_elem?_inside (y ∷ ys) zero h = (y, refl)
get_elem?_inside (y ∷ ys) (suc i) h = get_elem?_inside ys i (omega (arith, h))

gather_lem :
    {Image : Type 0} (images : List Image) (chunk : List ℕ)
    → ((j i : ℕ) → get_elem? chunk j ≡ some i → i < length images)
    → (imgs : List Image) × (gather images chunk ≡ some imgs)
      × ((j i : ℕ) (x : Image)
          → get_elem? chunk j ≡ some i
          → get_elem? images i ≡ some x
          → At imgs x)
unfolding gather
gather_lem images [] h = ([], refl, λ j i x e. ground arith)
gather_lem images (c ∷ rest) h =
    let (x, e) = get_elem?_inside images c (h 0 c refl) in
    let (more, e', at) = gather_lem images rest (λ j. h (suc j)) in
    (x ∷ more, ground (arith, e, e'), held images c rest x more e at)
  where
    held :
        {Image : Type 0} (images : List Image) (c : ℕ) (rest : List ℕ) (x : Image)
        (more : List Image)
        → get_elem? images c ≡ some x
        → ((j i : ℕ) (x : Image)
            → get_elem? rest j ≡ some i
            → get_elem? images i ≡ some x
            → At more x)
        → (j i : ℕ) (y : Image) → get_elem? (c ∷ rest) j ≡ some i
        → get_elem? images i ≡ some y
        → At (x ∷ more) y
    held images c rest x more e at zero i y here there = (0, ground arith)
    held images c rest x more e at (suc j) i y here there =
        let (a, e') = at j i y here there in (suc a, e')

pub At_inside : {A : Type 0} (xs : List A) (i : ℕ) {x : A} → get_elem? xs i ≡ some x → i < length xs
At_inside [] i e = ground arith
At_inside (y ∷ ys) zero e = omega arith
At_inside (y ∷ ys) (suc i) e = omega (arith, At_inside ys i e)

pub At-later : {A : Type 0} (xs ys : List A) (y : A) → At ys y → At (xs ++ ys) y
At-later [] ys y h = h
At-later (x ∷ xs) ys y h = let (i, e) = At-later xs ys y h in (suc i, e)

pub drop_names-append : (old new : List Text) → drop_names (length old) (old ++ new) ≡ new
drop_names-append [] new = refl
drop_names-append (x ∷ old) new = drop_names-append old new

if_same :
    {A B : Type 0} (f : A → B) (b : Bool) {x y : A} {z : B}
    → f x ≡ z
    → f y ≡ z
    → f (if b then x else y) ≡ z
if_same f true e e' = e
if_same f false e e' = e'

pub At-append : {A : Type 0} (xs ys : List A) (x : A) → At xs x → At (xs ++ ys) x
At-append [] ys x (i, e) = absurd (nothing_at i e)
  where
    nothing_at : {A : Type 0} {x : A} (i : ℕ) → ¬ (get_elem? [] i ≡ some x)
    nothing_at i e = ground arith
At-append (y ∷ xs) ys x (zero, e) = (0, e)
At-append (y ∷ xs) ys x (suc i, e) = let (j, e') = At-append xs ys x (i, e) in (suc j, e')

pub Attempted-first :
    {Image : Type 0} (first later : List (List Image)) (x : Image)
    → Attempted first x
    → Attempted (first ++ later) x
Attempted-first first later x (imgs, h, h') = (imgs, At-append first later imgs h, h')

pub Attempted-later :
    {Image : Type 0} (first later : List (List Image)) (x : Image)
    → Attempted later x
    → Attempted (first ++ later) x
Attempted-later first later x (imgs, h, h') = (imgs, At-later first later imgs h, h')

module _ {Image : Type 0} (cv : Opencv Image) where
  -- A chunk with an image adds one attempt, and nothing else is lost.
  process_chunk_attempts :
      (s : MappingState Image) (folder : Text) (x : Image) (xs : List Image)
      → (process_chunk cv s folder (x ∷ xs)).stitch_calls ≡ s.stitch_calls ++ (x ∷ xs) ∷ []
  unfolding process_chunk
  process_chunk_attempts s folder x xs = elim (Option-cases (global_stitch cv (x ∷ xs))) [
    | inl e ↦ rw (e, process_chunk) refl
    | inr (o, e) ↦
        rw (e, process_chunk)
          (if_same (λ (t : MappingState Image). t.stitch_calls)
            (cv.imwrite folder (chunk_file (s.chunk_counter + 1) o)) refl refl)
  ]

  process_chunk_grows :
      (s : MappingState Image) (folder : Text) (xs : List Image)
      → (batch : List (List Image)) × ((process_chunk cv s folder xs).stitch_calls
          ≡ s.stitch_calls ++ batch)
        × ((x : Image) → At xs x → Attempted batch x)
  unfolding process_chunk
  process_chunk_grows s folder [] = ([], sym (append-nil s.stitch_calls), λ x (i, e). ground arith)
  process_chunk_grows s folder (y ∷ ys) =
      ((y ∷ ys) ∷ [], process_chunk_attempts s folder y ys, λ x h. (y ∷ ys, (0, refl), h))

  pub process_chunks_lem :
      (s : MappingState Image) (folder : Text) (images : List Image) (chunks : List (List ℕ))
      → ((k j i : ℕ) → image_at chunks k j ≡ some i → i < length images)
      → (s' : MappingState Image) × (batch : List (List Image)) × (process_chunks cv s folder images
            chunks
          ≡ (s', returned))
        × (s'.stitch_calls ≡ s.stitch_calls ++ batch)
        × ((k j i : ℕ) (x : Image)
            → image_at chunks k j ≡ some i
            → get_elem? images i ≡ some x
            → Attempted batch x)
  unfolding process_chunks
  process_chunks_lem s folder images [] h =
      (s, [], refl, sym (append-nil s.stitch_calls), λ k j i x e e'. ground arith)
  process_chunks_lem s folder images (chunk ∷ rest) h =
      let (imgs, e, held) = gather_lem images chunk (h 0) in
      let (first, grown, in_first) = process_chunk_grows s folder imgs in
      let (s', later, e', grown', in_later) =
        process_chunks_lem (process_chunk cv s folder imgs) folder images rest (λ k. h (suc k)) in
      (
        s',
        first ++ later,
        ground (arith, e, e'),
        ground (arith, grown, grown', append_assoc s.stitch_calls first later),
        elsewhere images imgs chunk rest first later in_first in_later held,
      )
    where
      elsewhere :
          (images imgs : List Image) (chunk : List ℕ) (rest : List (List ℕ))
          (first later : List (List Image))
          → ((x : Image) → At imgs x → Attempted first x)
          → ((k j i : ℕ) (x : Image)
              → image_at rest k j ≡ some i
              → get_elem? images i ≡ some x
              → Attempted later x)
          → ((j i : ℕ) (x : Image)
              → get_elem? chunk j ≡ some i
              → get_elem? images i ≡ some x
              → At imgs x)
          → (k j i : ℕ) (x : Image) → image_at (chunk ∷ rest) k j ≡ some i
          → get_elem? images i ≡ some x
          → Attempted (first ++ later) x
      elsewhere images imgs chunk rest first later in_first in_later held zero j i x e e' =
          Attempted-first first later x (in_first x (held j i x e e'))
      elsewhere images imgs chunk rest first later in_first in_later held (suc k) j i x e e' =
          Attempted-later first later x (in_later k j i x e e')
