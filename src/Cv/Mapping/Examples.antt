-- ===== src/Cv/Mapping/Examples.antt =====
-- Passes over small directories (src/cv/mapping.cpp). An image is its number; 0 cannot be read.
use obcpp.Base.{
  ℕ, ◌+◌, ◌-◌, ◌*◌, ◌≤◌, ◌<◌, ◌≡◌, refl, true, false, ◌&&◌, none, some, List, [], ◌∷◌, map, arith,
  ltb, ◌==◌, if◌then◌else◌, sum_by,
}
use obcpp.Cv.Mapping.{
  Entry, Opencv, MappingState, Text, returned, scan, first_pass, load, chunk_list_with_overlap,
  chunk_file, second_pass, direct_stitch,
}
use obcpp.Cv.Mapping.Chunks.{image_at, chunk_list_with_overlap_lem}
use obcpp.Cv.Mapping.Attempts.{At, Attempted}
use obcpp.Cv.Mapping.Passes.{prepared, new_images_in_stitch_calls, lone_image_lost}

abbrev number : Text → ℕ
number [] = 0
number (n ∷ rest) = n

abbrev opencv : Opencv ℕ
opencv = record {
  is_empty = λ n. n == 0;
  rows = λ n. n;
  cols = λ n. n;
  no_image = 0;
  resize = λ a b n. n;
  left_columns = λ w n. n;
  imread = number;
  stitch = λ xs. some (true, sum_by (λ n. n) xs);
  imwrite = λ folder file. true;
}

abbrev jpg : Text
jpg = 46 ∷ 74 ∷ 80 ∷ 71 ∷ []

abbrev photo : ℕ → Entry
photo n = record { path = n ∷ []; extension = jpg; is_regular_file = true }

abbrev note : Entry
note = record { path = 9 ∷ []; extension = 46 ∷ []; is_regular_file = true }

abbrev fresh : MappingState ℕ
fresh = record {
  image_filenames = [];
  images = [];
  processed_image_count = 0;
  chunk_counter = 0;
  current_run_folder = none;
  disk = [];
  stitch_calls = [];
}

abbrev folder : Text
folder = 1 ∷ []

scanned_first : scan (photo 8 ∷ note ∷ photo 5 ∷ []) ≡ (5 ∷ []) ∷ (8 ∷ []) ∷ []
unfolding scan
scanned_first = refl

chunk_list_with_overlap_lem_example :
    (2 < 5
      → (chunks : List (List ℕ)) × (chunk_list_with_overlap 7 5 2 ≡ some chunks)
        × ((k j : ℕ)
            → image_at chunks k j
              ≡ (if ltb j 5 && ltb (k * (5 - 2) + j) 7 then some (k * (5 - 2) + j) else none))
        × ((i : ℕ) → i < 7 → (k : ℕ) × (j : ℕ) × (image_at chunks k j ≡ some i)))
    × (5 ≤ 2 → chunk_list_with_overlap 7 5 2 ≡ none)
chunk_list_with_overlap_lem_example = chunk_list_with_overlap_lem 7 5 2

-- The last of the chunks is a single image.
three_chunks :
    chunk_list_with_overlap 7 5 2
    ≡ some ((0 ∷ 1 ∷ 2 ∷ 3 ∷ 4 ∷ []) ∷ (3 ∷ 4 ∷ 5 ∷ 6 ∷ []) ∷ (6 ∷ []) ∷ [])
unfolding chunk_list_with_overlap
three_chunks = refl

new_images_in_stitch_calls_example :
    (s' : MappingState ℕ) × (batch : List (List ℕ)) × (first_pass opencv fresh folder true
        (some (photo 8 ∷ note ∷ photo 5 ∷ []))
        1
        5
        2
        3000
        true
      ≡ (s', returned))
    × (s'.processed_image_count ≡ 2)
    × (s'.stitch_calls ≡ batch)
    × ((name : Text)
        → At ((5 ∷ []) ∷ (8 ∷ []) ∷ []) name
        → (number name == 0) ≡ false
        → Attempted batch (prepared opencv 1 3000 true name))
new_images_in_stitch_calls_example =
    new_images_in_stitch_calls opencv fresh folder true (photo 8 ∷ note ∷ photo 5 ∷ []) 1 5 2 3000
      true [] (5 ∷ []) ((8 ∷ []) ∷ []) (λ e. refl) scanned_first refl (omega arith)

abbrev seen_two : MappingState ℕ
seen_two = record fresh {
  image_filenames = (5 ∷ []) ∷ (8 ∷ []) ∷ [];
  processed_image_count = 2;
  chunk_counter = 1;
  current_run_folder = some folder;
}

scanned_second : scan (photo 8 ∷ photo 2 ∷ photo 5 ∷ []) ≡ (2 ∷ []) ∷ (5 ∷ []) ∷ (8 ∷ []) ∷ []
unfolding scan
scanned_second = refl

-- The new image is 2, and the one that is looked at again is 8.
lone_image_lost_example :
    (s' : MappingState ℕ) × (first_pass opencv seen_two folder true
        (some (photo 8 ∷ photo 2 ∷ photo 5 ∷ []))
        1
        5
        2
        3000
        true
      ≡ (s', returned))
    × (s'.disk ≡ [])
    × (s'.processed_image_count ≡ 3)
    × (s'.stitch_calls ≡ map (λ x. x ∷ []) (load opencv 1 3000 true ((8 ∷ []) ∷ [])))
lone_image_lost_example =
    lone_image_lost opencv seen_two folder true (photo 8 ∷ photo 2 ∷ photo 5 ∷ []) 1 5 2 3000 true
      ((2 ∷ []) ∷ (5 ∷ []) ∷ []) (8 ∷ []) (λ e. refl) scanned_second refl (omega arith)

abbrev written : MappingState ℕ
written =
    (first_pass opencv fresh folder true (some (photo 8 ∷ note ∷ photo 5 ∷ [])) 1 5 2 3000 true).0

both_passes :
    (second_pass opencv written (0 ∷ []) (λ file. 4)).disk ≡ (folder, chunk_file 1 13) ∷ []
unfolding first_pass second_pass
both_passes = refl

direct : direct_stitch opencv (photo 8 ∷ note ∷ photo 5 ∷ []) 1 3000 true ≡ some 13
unfolding direct_stitch
direct = refl
