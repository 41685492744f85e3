-- ===== src/Cv/Mapping/Chunks.antt =====
-- The chunks that the images are cut into (`chunkListWithOverlap` of src/cv/mapping.cpp).
use obcpp.Base.{
  ℕ, zero, suc, ◌+◌, ◌-◌, ◌*◌, ◌≤◌, ◌≡◌, inl, inr, List, none, some, false, ltb, if◌then◌else◌,
  get_elem?, arith, Bool-cases, ◌<◌, refl, ap, ◌∙◌, true, ◌&&◌, Option, leb, ltb→lt, lt→ltb, [],
  ◌∷◌,
}
use obcpp.Cv.Mapping.{chunk_list_with_overlap, min, indices, chunks_from}

pub get_elem?-indices :
    (first count j : ℕ)
    → get_elem? (indices first count) j ≡ (if ltb j count then some (first + j) else none)
unfolding indices
get_elem?-indices first zero j = ground arith
get_elem?-indices first (suc count) zero = ground arith
get_elem?-indices first (suc count) (suc j) = ground (arith, get_elem?-indices (first + 1) count j)

-- Where a chunk ends.
abbrev pub stop : (num_images chunk_size i : ℕ) → ℕ
stop num_images chunk_size i = min (i + chunk_size) num_images

-- The chunk that starts at an index.
abbrev pub chunk_at : (num_images chunk_size i : ℕ) → List ℕ
chunk_at num_images chunk_size i = indices i (stop num_images chunk_size i - i)

suc_mul : (k step i : ℕ) → i + suc k * step ≡ i + step + k * step
suc_mul k step i = omega arith

pub get_elem?-chunks_from :
    (n size step fuel i k m : ℕ)
    → m ≡ i + k * step
    → n ≤ i + fuel
    → 1 ≤ step
    → get_elem? (chunks_from n size step fuel i) k
      ≡ (if ltb m n then some (chunk_at n size m) else none)
unfolding chunks_from
get_elem?-chunks_from n size step zero i k m e enough h = ground arith
get_elem?-chunks_from n size step (suc fuel) i zero m e enough h =
    let e' : m ≡ i = omega (arith, e) in rw e' (ground arith)
get_elem?-chunks_from n size step (suc fuel) i (suc k) m e enough h =
    let e' : m ≡ i + step + k * step = omega (arith, e, suc_mul k step i) in
    let rest : get_elem? (chunks_from n size step fuel (i + step)) k
        ≡ (if ltb m n then some (chunk_at n size m) else none) =
      get_elem?-chunks_from n size step fuel (i + step) k m e' (omega (arith, enough, h)) h in
    elim (Bool-cases (ltb i n)) [
      | inl y ↦ rw y rest
      | inr no_more ↦ let outside : ltb m n ≡ false = ground arith in rw (no_more, outside)
    ]

-- The image at a place of a chunk.
abbrev place_of : Option (List ℕ) → ℕ → Option ℕ
place_of none j = none
place_of (some chunk) j = get_elem? chunk j

abbrev pub image_at : List (List ℕ) → ℕ → ℕ → Option ℕ
image_at chunks k j = place_of (get_elem? chunks k) j

image_at-chunks :
    (n size step k j : ℕ)
    → 1 ≤ step
    → 1 ≤ size
    → image_at (chunks_from n size step n 0) k j
      ≡ (if ltb j size && ltb (k * step + j) n then some (k * step + j) else none)
image_at-chunks n size step k j h h' =
    let chunk : get_elem? (chunks_from n size step n 0) k
        ≡ (if ltb (k * step) n then some (chunk_at n size (k * step)) else none) =
      get_elem?-chunks_from n size step n 0 k (k * step) (omega arith) (omega arith) h in
    let place : get_elem? (chunk_at n size (k * step)) j
        ≡ (if ltb j (stop n size (k * step) - k * step) then some (k * step + j) else none) =
      get_elem?-indices (k * step) (stop n size (k * step) - k * step) j in
    ap (λ c. place_of c j) chunk ∙ elim (Bool-cases (ltb (k * step) n)) [
      | inl y ↦ rw y (place ∙ ground arith)
      | inr no_more ↦ rw no_more (ground arith)
    ]

-- A number as a multiple of the step and a rest.
divided : (step : ℕ) → 1 ≤ step → (i : ℕ) → (k : ℕ) × (j : ℕ) × (k * step + j ≡ i) × (j < step)
divided step h zero = (0, 0, omega arith, h)
divided step h (suc i) =
    let (k, j, e, b) = divided step h i in
    elim (Bool-cases (ltb (suc j) step)) [
      | inl y ↦ (k, suc j, omega (arith, e), ltb→lt (suc j) step y)
      | inr last ↦
          let full : step ≡ suc j = ground arith in
          let next : suc k * step ≡ step + k * step = omega (arith, suc_mul k step 0) in
          (suc k, 0, omega (arith, e, next, full), h)
    ]

-- With an overlap smaller than the chunks, place j of chunk k holds the image k * (size - overlap) + j
-- if j is less than the size and there is such an image, and nothing else; and each image is in a
-- chunk. With another overlap there are no chunks.
pub chunk_list_with_overlap_lem :
    (n size overlap : ℕ)
    → (overlap < size
        → (chunks : List (List ℕ)) × (chunk_list_with_overlap n size overlap ≡ some chunks)
          × ((k j : ℕ)
              → image_at chunks k j ≡ (
                  if ltb j size && ltb (k * (size - overlap) + j) n
                  then some (k * (size - overlap) + j)
                  else none))
          × ((i : ℕ) → i < n → (k : ℕ) × (j : ℕ) × (image_at chunks k j ≡ some i)))
      × (size ≤ overlap → chunk_list_with_overlap n size overlap ≡ none)
unfolding chunk_list_with_overlap
chunk_list_with_overlap_lem n size overlap = (
  λ h.
      let step_pos : 1 ≤ size - overlap = omega (arith, h) in
      let size_pos : 1 ≤ size = omega (arith, h) in
      let smaller : leb size overlap ≡ false = ground arith in
      let places = λ (k j : ℕ). image_at-chunks n size (size - overlap) k j step_pos size_pos in
      (
        chunks_from n size (size - overlap) n 0,
        rw smaller refl,
        places,
        λ i inside.
            let (k, j, e, b) = divided (size - overlap) step_pos i in
            let near : ltb j size ≡ true = ground (arith, b, h) in
            let there : ltb (k * (size - overlap) + j) n ≡ true = rw e (lt→ltb i n inside) in
            (k, j, places k j ∙ rw (near, there) (ap some e)),
      ),
  λ h. ground arith,
)

-- A single image is a chunk of its own.
pub lone_chunk :
    (size overlap : ℕ)
    → overlap < size
    → chunk_list_with_overlap 1 size overlap ≡ some ((0 ∷ []) ∷ [])
unfolding chunk_list_with_overlap chunks_from indices
lone_chunk size overlap h =
    let smaller : leb size overlap ≡ false = ground arith in
    let one : min (0 + size) 1 - 0 ≡ 1 = ground arith in rw (smaller, one) refl

pub no_chunk :
    (size overlap : ℕ) → overlap < size → chunk_list_with_overlap 0 size overlap ≡ some []
unfolding chunk_list_with_overlap chunks_from
no_chunk size overlap h = let smaller : leb size overlap ≡ false = ground arith in rw smaller refl
