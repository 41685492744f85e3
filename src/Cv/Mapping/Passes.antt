-- ===== src/Cv/Mapping/Passes.antt =====
-- What a pass over the images does (`Mapping::firstPass` of src/cv/mapping.cpp).
use obcpp.Base.{
  ℕ, zero, suc, ◌+◌, ◌<◌, ◌≡◌, refl, inl, inr, Bool, true, false, some, List, [], ◌∷◌, ◌++◌, arith,
  if◌then◌else◌, length, ◌≤◌, ap, ◌∙◌, Option, none, map, leb, Bool-cases, length-append,
}
use mathlib.Core.List.{append-nil}
use obcpp.Cv.Mapping.{
  Text, Entry, Opencv, MappingState, returned, gather, process_chunk, process_chunks, load,
  drop_names, pass_images, pass_names, first_pass, scan, run_folder, read_and_resize, crop_right,
  global_stitch,
}
use obcpp.Cv.Mapping.Chunks.{lone_chunk, no_chunk, image_at, chunk_list_with_overlap_lem}
use obcpp.Cv.Mapping.Attempts.{At, Attempted, At_inside, drop_names-append, process_chunks_lem}

run_folder_there :
    (o : Option Text) (new_folder : Text) (created : Bool)
    → (o ≡ none → created ≡ true)
    → (run_folder o new_folder created).1 ≡ true
run_folder_there none new_folder created h = h refl
run_folder_there (some folder) new_folder created h = refl

-- With the folder of the run on record.
abbrev in_folder : {Image : Type 0} → MappingState Image → Text → Bool → MappingState Image
in_folder s new_folder created = record s {
  current_run_folder = some (run_folder s.current_run_folder new_folder created).0;
}

module _ {Image : Type 0} (cv : Opencv Image) where
  -- An image as it goes into the chunks.
  abbrev pub prepared : (crop_pixels max_dim : ℕ) → Bool → Text → Image
  prepared crop_pixels max_dim preprocess filename =
      if preprocess
      then read_and_resize cv max_dim (crop_right cv crop_pixels (cv.imread filename))
      else cv.imread filename

  load-At :
      (crop_pixels max_dim : ℕ) (preprocess : Bool) (names : List Text) (name : Text)
      → At names name
      → cv.is_empty (cv.imread name) ≡ false
      → At
          (load cv crop_pixels max_dim preprocess names)
          (prepared crop_pixels max_dim preprocess name)
  unfolding load
  load-At crop max_dim preprocess [] name (p, e) readable = ground arith
  load-At crop max_dim preprocess (f ∷ rest) name (zero, e) readable =
      (0, ground (arith, e, readable))
  load-At crop max_dim preprocess (f ∷ rest) name (suc p, e) readable =
      let (q, e') = load-At crop max_dim preprocess rest name (p, e) readable in
      elim (Bool-cases (cv.is_empty (cv.imread f))) [
        | inl gone ↦ (q, ground (arith, e', gone))
        | inr read ↦ (suc q, ground (arith, e', read))
      ]

  pass_images_lem :
      (s : MappingState Image) (folder : Text) (chunk_size overlap : ℕ) (names : List Text)
      (loaded : List Image)
      → overlap < chunk_size
      → (s' : MappingState Image) × (batch : List (List Image)) × (pass_images cv s folder
            chunk_size overlap names loaded
          ≡ (s', returned))
        × (s'.processed_image_count ≡ length names)
        × (s'.stitch_calls ≡ s.stitch_calls ++ batch)
        × ((x : Image) → At loaded x → Attempted batch x)
  unfolding pass_images
  pass_images_lem s folder size overlap names loaded less =
      let (chunks, e, places, covered) =
        (chunk_list_with_overlap_lem (length loaded) size overlap).0 less in
      let s0 = record s { image_filenames = names; images = loaded } in
      let inside : (k j i : ℕ) → image_at chunks k j ≡ some i → i < length loaded =
        (λ k j i h. ground (arith, places k j, h)) in
      let (s', batch, e', grown, tried) = process_chunks_lem cv s0 folder loaded chunks inside in
      (
        record s' { processed_image_count = length names; images = [] },
        batch,
        ground (arith, e, e'),
        refl,
        grown,
        λ x (i, here).
            let (k, j, in_chunk) = covered i (At_inside loaded i here) in
            tried k j i x in_chunk here,
      )

  -- With names that are new to a mapping, a pass from the list of the names on.
  pass_names_lem :
      (s : MappingState Image) (folder : Text) (crop_pixels chunk_size overlap max_dim : ℕ)
      (preprocess : Bool) (old : List Text) (first : Text) (more : List Text)
      → s.processed_image_count ≡ length old
      → pass_names cv s folder crop_pixels chunk_size overlap max_dim preprocess
          (old ++ first ∷ more)
        ≡ pass_images cv s folder chunk_size overlap
            (old ++ first ∷ more)
            (load cv crop_pixels max_dim preprocess (first ∷ more))
  unfolding pass_names
  pass_names_lem s folder crop size overlap max_dim preprocess old first more counted =
      let all = old ++ first ∷ more in
      let dropped : drop_names s.processed_image_count all ≡ first ∷ more =
        rw counted (drop_names-append old (first ∷ more)) in
      let longer : leb (length all) s.processed_image_count ≡ false =
        ground (arith, counted, length-append old (first ∷ more)) in
      rw longer (
        ap
          (λ names.
            pass_images cv s folder size overlap all (load cv crop max_dim preprocess names))
          dropped)

  first_pass-pass_images :
      (s : MappingState Image) (new_folder : Text) (created : Bool) (entries : List Entry)
      (crop_pixels chunk_size overlap max_dim : ℕ) (preprocess : Bool) (old : List Text)
      (first : Text) (more : List Text)
      → (s.current_run_folder ≡ none → created ≡ true)
      → scan entries ≡ old ++ first ∷ more
      → s.processed_image_count ≡ length old
      → first_pass cv s new_folder created
          (some entries)
          crop_pixels
          chunk_size
          overlap
          max_dim
          preprocess
        ≡ pass_images cv
            (in_folder s new_folder created)
            (run_folder s.current_run_folder new_folder created).0
            chunk_size
            overlap
            (old ++ first ∷ more)
            (load cv crop_pixels max_dim preprocess (first ∷ more))
  unfolding first_pass
  first_pass-pass_images s new_folder created entries crop size overlap max_dim preprocess old first
        more ready scanned counted =
      let folder = (run_folder s.current_run_folder new_folder created).0 in
      let there : (run_folder s.current_run_folder new_folder created).1 ≡ true =
        run_folder_there s.current_run_folder new_folder created ready in
      rw (there, scanned)
        (pass_names_lem (in_folder s new_folder created) folder crop size overlap max_dim preprocess
          old first more counted)

  -- Where the folder is there and the names of a directory are those of the passes before and then
  -- some that are new, a pass with an overlap smaller than the chunks returns, counts all names as
  -- processed, and each new image that can be read is, cropped and resized if that is asked for, in a
  -- chunk that `globalStitch` is called with; it stitches a chunk of two images or more.
  pub new_images_in_stitch_calls :
      (s : MappingState Image) (new_folder : Text) (created : Bool) (entries : List Entry)
      (crop_pixels chunk_size overlap max_dim : ℕ) (preprocess : Bool) (old : List Text)
      (first : Text) (more : List Text)
      → (s.current_run_folder ≡ none → created ≡ true)
      → scan entries ≡ old ++ first ∷ more
      → s.processed_image_count ≡ length old
      → overlap < chunk_size
      → (s' : MappingState Image) × (batch : List (List Image)) × (first_pass cv s new_folder
            created
            (some entries)
            crop_pixels
            chunk_size
            overlap
            max_dim
            preprocess
          ≡ (s', returned))
        × (s'.processed_image_count ≡ length (old ++ first ∷ more))
        × (s'.stitch_calls ≡ s.stitch_calls ++ batch)
        × ((name : Text)
            → At (first ∷ more) name
            → cv.is_empty (cv.imread name) ≡ false
            → Attempted batch (prepared crop_pixels max_dim preprocess name))
  new_images_in_stitch_calls s new_folder created entries crop size overlap max_dim preprocess old
        first more ready scanned counted less =
      let (s', batch, e, n, grown, tried) =
        pass_images_lem (in_folder s new_folder created)
          (run_folder s.current_run_folder new_folder created).0 size overlap (old ++ first ∷ more)
          (load cv crop max_dim preprocess (first ∷ more)) less in
      (
        s',
        batch,
        first_pass-pass_images s new_folder created entries crop size overlap max_dim preprocess old
              first more ready scanned counted
            ∙ e,
        n,
        grown,
        λ name at readable.
            tried (prepared crop max_dim preprocess name)
              (load-At crop max_dim preprocess (first ∷ more) name at readable),
      )

  pass_one_image :
      (s : MappingState Image) (folder : Text) (chunk_size overlap : ℕ) (names : List Text)
      (loaded : List Image)
      → length loaded ≤ 1
      → overlap < chunk_size
      → pass_images cv s folder chunk_size overlap names loaded ≡ (
        record s {
          image_filenames = names;
          images = [];
          processed_image_count = length names;
          chunk_counter = s.chunk_counter + length loaded;
          stitch_calls = s.stitch_calls ++ map (λ x. x ∷ []) loaded;
        },
        returned,
      )
  unfolding pass_images process_chunks gather process_chunk global_stitch
  pass_one_image s folder size overlap names [] few less =
      ground (arith, no_chunk size overlap less, append-nil s.stitch_calls)
  pass_one_image s folder size overlap names (x ∷ []) few less =
      ground (arith, lone_chunk size overlap less)
  pass_one_image s folder size overlap names (x ∷ y ∷ rest) few less = absurd (omega (arith, few))

  load_one :
      (crop_pixels max_dim : ℕ) (preprocess : Bool) (name : Text)
      → length (load cv crop_pixels max_dim preprocess (name ∷ [])) ≤ 1
  unfolding load
  load_one crop max_dim preprocess name = elim (Bool-cases (cv.is_empty (cv.imread name))) [
    | inl gone ↦ ground (arith, gone)
    | inr read ↦ ground (arith, read)
  ]

  -- Where there is one image more than were processed, a pass writes nothing though it counts all names
  -- as processed, and calls `globalStitch` with no other image than that of the last name, if it can be
  -- read, whichever name is the new one.
  pub lone_image_lost :
      (s : MappingState Image) (new_folder : Text) (created : Bool) (entries : List Entry)
      (crop_pixels chunk_size overlap max_dim : ℕ) (preprocess : Bool) (before : List Text)
      (last : Text)
      → (s.current_run_folder ≡ none → created ≡ true)
      → scan entries ≡ before ++ last ∷ []
      → s.processed_image_count ≡ length before
      → overlap < chunk_size
      → (s' : MappingState Image) × (first_pass cv s new_folder created
            (some entries)
            crop_pixels
            chunk_size
            overlap
            max_dim
            preprocess
          ≡ (s', returned))
        × (s'.disk ≡ s.disk)
        × (s'.processed_image_count ≡ length (before ++ last ∷ []))
        × (s'.stitch_calls
            ≡ s.stitch_calls
              ++ map (λ x. x ∷ []) (load cv crop_pixels max_dim preprocess (last ∷ [])))
  lone_image_lost s new_folder created entries crop size overlap max_dim preprocess before last
        ready scanned counted less =
      let loaded = load cv crop max_dim preprocess (last ∷ []) in
      let s0 = in_folder s new_folder created in
      (
        record s0 {
          image_filenames = before ++ last ∷ [];
          images = [];
          processed_image_count = length (before ++ last ∷ []);
          chunk_counter = s0.chunk_counter + length loaded;
          stitch_calls = s0.stitch_calls ++ map (λ x. x ∷ []) loaded;
        },
        first_pass-pass_images s new_folder created entries crop size overlap max_dim preprocess
              before last [] ready scanned counted
            ∙ pass_one_image s0 (run_folder s.current_run_folder new_folder created).0 size overlap
                (before ++ last ∷ []) loaded (load_one crop max_dim preprocess last) less,
        refl,
        refl,
        refl,
      )
