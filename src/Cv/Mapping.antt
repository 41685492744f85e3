-- ===== src/Cv/Mapping.antt =====
-- The stitching of the images of a search (`Mapping` of src/cv/mapping.cpp), and the crop before it
-- (src/cv/preprocess.cpp). OpenCV and the disk are parameters; texts are lists of bytes, sizes are not
-- negative, and the time in the names of the files is left out.
pub mod Attempts
pub mod Chunks
pub mod Passes
mod Examples
use obcpp.Base.{
  ℕ, zero, suc, ◌+◌, ◌-◌, List, [], ◌∷◌, ◌++◌, map, Option, none, some, Bool, true, false, not,
  ◌&&◌, ◌||◌, ◌==◌, ltb, leb, if◌then◌else◌, length, get_elem?, select,
}

abbrev pub Text : Type 0
Text = List ℕ

abbrev pub min : ℕ → ℕ → ℕ
min a b = if ltb b a then b else a

abbrev pub max : ℕ → ℕ → ℕ
max a b = if ltb a b then b else a

-- Count many numbers, from the first.
unfoldable pub indices : ℕ → ℕ → List ℕ
indices first zero = []
indices first (suc count) = first ∷ indices (first + 1) count

-- The loop of `chunkListWithOverlap` from an index on.
unfoldable pub chunks_from : (num_images chunk_size step fuel : ℕ) → ℕ → List (List ℕ)
unfolding indices
chunks_from num_images chunk_size step zero i = []
chunks_from num_images chunk_size step (suc fuel) i =
    let rest = chunks_from num_images chunk_size step fuel (i + step) in
    if ltb i num_images then indices i (min (i + chunk_size) num_images - i) ∷ rest else []

-- None where it throws. The index grows with each step, so the number of images is fuel enough.
pub chunk_list_with_overlap : (num_images chunk_size overlap : ℕ) → Option (List (List ℕ))
unfolding chunks_from
chunk_list_with_overlap num_images chunk_size overlap =
    if leb chunk_size overlap
    then none
    else some (chunks_from num_images chunk_size (chunk_size - overlap) num_images 0)

abbrev to_lower : ℕ → ℕ
to_lower c = if leb 65 c && leb c 90 then c + 32 else c

abbrev same_text : Text → Text → Bool
same_text [] [] = true
same_text [] (d ∷ ds) = false
same_text (c ∷ cs) [] = false
same_text (c ∷ cs) (d ∷ ds) = c == d && same_text cs ds

abbrev text_before : Text → Text → Bool
text_before [] [] = false
text_before [] (d ∷ ds) = true
text_before (c ∷ cs) [] = false
text_before (c ∷ cs) (d ∷ ds) = ltb c d || (c == d && text_before cs ds)

abbrev insert_sorted : Text → List Text → List Text
insert_sorted x [] = x ∷ []
insert_sorted x (y ∷ ys) =
    let rest = insert_sorted x ys in if text_before y x then y ∷ rest else x ∷ y ∷ ys

abbrev sort_names : List Text → List Text
sort_names [] = []
sort_names (x ∷ xs) = insert_sorted x (sort_names xs)

pub record Entry : Type 0 where
  pub path : Text
  pub extension : Text
  pub is_regular_file : Bool

-- .jpg, .jpeg and .png
abbrev is_image : Entry → Bool
is_image e =
    let ext = map to_lower e.extension in
    e.is_regular_file
    && (same_text ext (46 ∷ 106 ∷ 112 ∷ 103 ∷ [])
        || (same_text ext (46 ∷ 106 ∷ 112 ∷ 101 ∷ 103 ∷ [])
            || same_text ext (46 ∷ 112 ∷ 110 ∷ 103 ∷ [])))

-- The images of a directory, in the order of their names.
pub scan : List Entry → List Text
scan entries = sort_names (map (λ (e : Entry). e.path) (select is_image entries))

-- What the mapping writes.
pub data Saved (Image : Type 0) : Type 0 where
  chunk_file : ℕ → Image → Saved Image
  final_file : Image → Saved Image

-- OpenCV: `resize` by the ratio of two numbers; the stitcher returns nothing where it throws, and
-- else whether its status is OK, with its image.
pub record Opencv (Image : Type 0) : Type 0 where
  pub is_empty : Image → Bool
  pub rows : Image → ℕ
  pub cols : Image → ℕ
  pub no_image : Image
  pub resize : ℕ → ℕ → Image → Image
  pub left_columns : ℕ → Image → Image
  pub imread : Text → Image
  pub stitch : List Image → Option (Bool × Image)
  pub imwrite : Text → Saved Image → Bool

-- The fields, with what has been written to the disk and what `globalStitch` has been called with.
pub record MappingState (Image : Type 0) : Type 0 where
  pub image_filenames : List Text
  pub images : List Image
  pub processed_image_count : ℕ
  pub chunk_counter : ℕ
  pub current_run_folder : Option Text
  pub disk : List (Text × Saved Image)
  pub stitch_calls : List (List Image)

pub data PassEnd : Type 0 where
  returned thrown out_of_bounds : PassEnd

-- `chunk_imgs.push_back(images[idx])` for each index; none where one is out of bounds.
unfoldable pub gather : {Image : Type 0} → List Image → List ℕ → Option (List Image)
gather images [] = some []
gather images (idx ∷ rest) =
    let later = gather images rest in
    elim (get_elem? images idx) [
      | none ↦ none
      | some image ↦ elim later [ none ↦ none | some more ↦ some (image ∷ more) ]
    ]

abbrev pub drop_names : ℕ → List Text → List Text
drop_names zero names = names
drop_names (suc n) [] = []
drop_names (suc n) (name ∷ names) = drop_names n names

-- The folder of the run, and whether it is there.
abbrev pub run_folder : Option Text → Text → Bool → Text × Bool
run_folder none new_folder created = (new_folder, created)
run_folder (some folder) new_folder created = (folder, true)

module _ {Image : Type 0} (cv : Opencv Image) where
  pub read_and_resize : ℕ → Image → Image
  read_and_resize max_dim input =
      let largest_side = max (cv.rows input) (cv.cols input) in
      if cv.is_empty input
      then cv.no_image
      else if ltb max_dim largest_side
      then cv.resize max_dim largest_side input
      else input

  pub crop_right : ℕ → Image → Image
  crop_right crop_pixels image =
      if leb (cv.cols image) crop_pixels
      then image
      else cv.left_columns (cv.cols image - crop_pixels) image

  -- Two images at least, or nothing comes out.
  pub global_stitch : List Image → Option Image
  global_stitch images = if ltb (length images) 2 then none else elim (cv.stitch images) [
    | none ↦ none
    | some (ok, stitched) ↦ if ok && not (cv.is_empty stitched) then some stitched else none
  ]

  -- A file that cannot be written is left out.
  abbrev save : MappingState Image → Text → Saved Image → MappingState Image
  save s folder file =
      if cv.imwrite folder file then record s { disk = s.disk ++ (folder, file) ∷ [] } else s

  pub process_chunk : MappingState Image → Text → List Image → MappingState Image
  unfolding global_stitch
  process_chunk s folder [] = s
  process_chunk s folder (image ∷ rest) =
      let tried = record s {
        chunk_counter = s.chunk_counter + 1;
        stitch_calls = s.stitch_calls ++ (image ∷ rest) ∷ [];
      } in
      elim (global_stitch (image ∷ rest)) [
        | none ↦ tried
        | some stitched ↦ save tried folder (chunk_file (s.chunk_counter + 1) stitched)
      ]

  -- The loop over the chunks.
  unfoldable pub process_chunks :
      MappingState Image → Text → List Image → List (List ℕ) → MappingState Image × PassEnd
  unfolding gather process_chunk
  process_chunks s folder images [] = (s, returned)
  process_chunks s folder images (chunk ∷ rest) = elim (gather images chunk) [
    | none ↦ (s, out_of_bounds)
    | some chunk_imgs ↦ process_chunks (process_chunk s folder chunk_imgs) folder images rest
  ]

  -- The loop that loads the images; those that cannot be read are left out.
  unfoldable pub load : (crop_pixels max_dim : ℕ) → Bool → List Text → List Image
  unfolding crop_right read_and_resize
  load crop_pixels max_dim preprocess [] = []
  load crop_pixels max_dim preprocess (filename ∷ rest) =
      let later = load crop_pixels max_dim preprocess rest in
      let img = cv.imread filename in
      if cv.is_empty img
      then later
      else if preprocess
      then read_and_resize max_dim (crop_right crop_pixels img) ∷ later
      else img ∷ later

  -- From the loaded images on.
  pub pass_images :
      MappingState Image
      → (folder : Text) (chunk_size overlap : ℕ) → List Text
      → List Image
      → MappingState Image × PassEnd
  unfolding process_chunks chunk_list_with_overlap
  pass_images s folder chunk_size overlap all_filenames loaded =
      let s' = record s { image_filenames = all_filenames; images = loaded } in
      elim (chunk_list_with_overlap (length loaded) chunk_size overlap) [
        | none ↦ (s', thrown)
        | some chunks ↦
            let (s'', ended) = process_chunks s' folder loaded chunks in
            elim ended [
              | returned ↦ (
                record s'' { processed_image_count = length all_filenames; images = [] },
                returned,
              )
              | other ↦ (s'', other)
            ]
      ]

  -- From the list of the names on.
  pub pass_names :
      MappingState Image
      → (folder : Text) (crop_pixels chunk_size overlap max_dim : ℕ) → Bool
      → List Text
      → MappingState Image × PassEnd
  unfolding load pass_images
  pass_names s folder crop_pixels chunk_size overlap max_dim preprocess all_filenames =
      if leb (length all_filenames) s.processed_image_count
      then (s, returned)
      else pass_images s folder chunk_size overlap all_filenames
          (load crop_pixels max_dim preprocess (drop_names s.processed_image_count all_filenames))

  -- The new folder gets the name that the clock gives; `created` and `entries` are what the file
  -- system answers, false and none where it throws.
  pub first_pass :
      MappingState Image
      → (new_folder : Text) (created : Bool) (entries : Option (List Entry))
      → (crop_pixels chunk_size overlap max_dim : ℕ) → Bool
      → MappingState Image × PassEnd
  unfolding pass_names scan
  first_pass s new_folder created entries crop_pixels chunk_size overlap max_dim preprocess =
      let (folder, ready) = run_folder s.current_run_folder new_folder created in
      let s' = record s { current_run_folder = some folder } in
      if ready
      then elim entries [
        | none ↦ (s', thrown)
        | some found ↦
            pass_names s' folder crop_pixels chunk_size overlap max_dim preprocess (scan found)
      ]
      else (s', thrown)

  -- The chunk files of a folder that can be read again.
  abbrev chunk_images : (Saved Image → Image) → List (Text × Saved Image) → Text → List Image
  chunk_images reread [] folder = []
  chunk_images reread ((place, final_file image) ∷ rest) folder = chunk_images reread rest folder
  chunk_images reread ((place, chunk_file n image) ∷ rest) folder =
      let later = chunk_images reread rest folder in
      let cimg = reread (chunk_file n image) in
      if same_text place folder then (if cv.is_empty cimg then later else cimg ∷ later) else later

  abbrev chunk_files : List (Text × Saved Image) → Text → ℕ
  chunk_files [] folder = 0
  chunk_files ((place, final_file image) ∷ rest) folder = chunk_files rest folder
  chunk_files ((place, chunk_file n image) ∷ rest) folder =
      let later = chunk_files rest folder in if same_text place folder then suc later else later

  -- The chunks are stitched to the final image.
  pub second_pass : MappingState Image → Text → (Saved Image → Image) → MappingState Image
  unfolding global_stitch
  second_pass s run_subdir reread =
      let folder : Text = elim (s.current_run_folder) [ none ↦ run_subdir | some f ↦ f ] in
      let found = chunk_images reread s.disk folder in
      let tried = record s { stitch_calls = s.stitch_calls ++ found ∷ [] } in
      if chunk_files s.disk folder == 0 then s else elim (global_stitch found) [
        | none ↦ tried
        | some stitched ↦ save tried folder (final_file stitched)
      ]

  pub reset : MappingState Image → MappingState Image
  reset s = record s {
    images = [];
    image_filenames = [];
    processed_image_count = 0;
    chunk_counter = 0;
    current_run_folder = none;
  }

  -- The images of a directory, each cropped where that is asked for and resized in any case.
  abbrev load_all : (crop_pixels max_dim : ℕ) → Bool → List Text → List Image
  load_all crop_pixels max_dim preprocess [] = []
  load_all crop_pixels max_dim preprocess (filename ∷ rest) =
      let later = load_all crop_pixels max_dim preprocess rest in
      let img = cv.imread filename in
      let cropped = if preprocess then crop_right crop_pixels img else img in
      if cv.is_empty img then later else read_and_resize max_dim cropped ∷ later

  -- What is saved, if anything: all images of the directory in one.
  pub direct_stitch : List Entry → (crop_pixels max_dim : ℕ) → Bool → Option Image
  unfolding scan global_stitch crop_right read_and_resize
  direct_stitch entries crop_pixels max_dim preprocess =
      global_stitch (load_all crop_pixels max_dim preprocess (scan entries))
