-- ===== src/Install.antt =====
-- src/command/install_to.rs: the embedded templates are extracted, and the executable is copied.
mod Tests
use weverywhere.Prelude.{
  ℕ, ◌+◌, ◌≡◌, refl, ap, sym, ◌∙◌, Bool, true, false, List, [], ◌∷◌, ◌++◌, Option, none, some,
  Bytes, Text, arith, ◌==◌, if◌then◌else◌, Bool-cases, inl, inr, bytes_eq, All, length,
}
use weverywhere.Prelude.Utf8.{codes}
use weverywhere.Configuration.{Files, stored}

-- `include_directory::DirEntry`: an embedded file or directory under its path.
mutual
  pub data DirEntry : Type 0 where
    dir : (path : Text) (entries : Entries) → DirEntry
    file : (path : Text) (contents : Bytes) → DirEntry

  pub data Entries : Type 0 where
    nil : Entries
    cons : DirEntry → Entries → Entries

abbrev last_of : Text → Option Text → Text
last_of whole none = whole
last_of whole (some name) = name

-- The text after the last slash, if there is one.
unfoldable pub after_slash : Text → Option Text
after_slash [] = none
after_slash (c ∷ s) = let rest = after_slash s in if c == b'/' then some (last_of s rest) else rest

-- `leaf_name`, of a path that does not end in a slash or in `..`.
unfoldable pub leaf_name : Text → Text
unfolding after_slash
leaf_name path = last_of path (after_slash path)

-- `Path::join` with a relative path.
abbrev pub joined : Text → Text → Text
joined dest name = dest ++ (b'/' ∷ name)

-- The files, the count of those extracted, and whether all went well.
pub record Extracted : Type 0 where
  pub files : Files
  pub count : ℕ
  pub ok : Bool

-- `?`: a failure ends the extraction.
abbrev pub go_on : Extracted → (Extracted → Extracted) → Extracted
go_on st f = if st.ok then f st else st

go_on_id : (st : Extracted) → st ≡ go_on st (λ x. x)
go_on_id st = ground arith

go_on_good : (st : Extracted) (f : Extracted → Extracted) → st.ok ≡ true → go_on st f ≡ f st
go_on_good st f h = ground arith

go_on_bad : (st : Extracted) (f : Extracted → Extracted) → st.ok ≡ false → go_on st f ≡ st
go_on_bad st f h = ground arith

-- Once failed, always failed.
go_on_assoc :
    (st : Extracted) (f g : Extracted → Extracted)
    → go_on st (λ s. go_on (f s) g) ≡ go_on (go_on st f) g
go_on_assoc st f g = elim (Bool-cases st.ok) [
  | inl good ↦
      go_on_good st (λ s. go_on (f s) g) good ∙ sym (ap (λ s. go_on s g) (go_on_good st f good))
  | inr bad ↦
      go_on_bad st (λ s. go_on (f s) g) bad
      ∙ sym (ap (λ s. go_on s g) (go_on_bad st f bad) ∙ go_on_bad st g bad)
]

go_on_ap :
    (st : Extracted) (f g : Extracted → Extracted)
    → (st.ok ≡ true → f st ≡ g st)
    → go_on st f ≡ go_on st g
go_on_ap st f g same = elim (Bool-cases st.ok) [
  | inl good ↦ rw (go_on_good st f good, go_on_good st g good) (same good)
  | inr bad ↦ go_on_bad st f bad ∙ sym (go_on_bad st g bad)
]

module _ (writes creates : Text → Bool) where
  unfoldable pub write_file : Extracted → Text → Bytes → Extracted
  write_file st path b =
      if writes path
      then record { files = stored st.files path b; count = st.count + 1; ok = true }
      else record st { ok = false }

  -- `extract_entry`, and its loop over the entries of a directory.
  unfoldable mutual
    unfolding leaf_name write_file

    pub extract_entry : DirEntry → Text → Extracted → Extracted
    extract_entry (dir path entries) dest st =
        let sub_dest = joined dest (leaf_name path) in
        let inside = extract_entries entries sub_dest st in
        if creates sub_dest then inside else record st { ok = false }
    extract_entry (file path contents) dest st =
        write_file st (joined dest (leaf_name path)) contents

    pub extract_entries : Entries → Text → Extracted → Extracted
    extract_entries nil dest st = st
    extract_entries (cons e es) dest st = go_on (extract_entry e dest st) (extract_entries es dest)

-- The files of an embedded tree, each under its path, in the order of the tree.
unfoldable mutual
  unfolding leaf_name

  pub layout : DirEntry → Text → List (Text × Bytes)
  layout (dir path entries) dest = layout_all entries (joined dest (leaf_name path))
  layout (file path contents) dest = (joined dest (leaf_name path), contents) ∷ []

  pub layout_all : Entries → Text → List (Text × Bytes)
  layout_all nil dest = []
  layout_all (cons e es) dest = layout e dest ++ layout_all es dest

module _ (writes creates : Text → Bool) where
  -- The files written one by one, up to the first that cannot be.
  pub write_list : List (Text × Bytes) → Extracted → Extracted
  write_list [] st = st
  write_list ((p, b) ∷ rest) st = go_on (write_file writes creates st p b) (write_list rest)

  write_list-append :
      (xs ys : List (Text × Bytes)) (st : Extracted)
      → st.ok ≡ true
      → write_list (xs ++ ys) st ≡ go_on (write_list xs st) (write_list ys)
  unfolding write_list
  write_list-append [] ys st h = sym (go_on_good st (write_list ys) h)
  write_list-append ((p, b) ∷ xs) ys st h =
      go_on_ap (write_file writes creates st p b) (write_list (xs ++ ys))
        (λ s. go_on (write_list xs s) (write_list ys))
        (write_list-append xs ys (write_file writes creates st p b))
      ∙ go_on_assoc (write_file writes creates st p b) (write_list xs) (write_list ys)

  mutual
    unfolding extract_entry extract_entries layout layout_all write_list

    extract_entry-layout :
        (made : (p : Text) → creates p ≡ true) (e : DirEntry) (dest : Text) (st : Extracted)
        → st.ok ≡ true
        → extract_entry writes creates e dest st ≡ write_list (layout e dest) st
    extract_entry-layout made (dir path entries) dest st h =
        rw (made (joined dest (leaf_name path)))
          (extract_entries-layout made entries (joined dest (leaf_name path)) st h)
    extract_entry-layout made (file path contents) dest st h =
        go_on_id (write_file writes creates st (joined dest (leaf_name path)) contents)

    extract_entries-layout :
        (made : (p : Text) → creates p ≡ true) (es : Entries) (dest : Text) (st : Extracted)
        → st.ok ≡ true
        → extract_entries writes creates es dest st ≡ write_list (layout_all es dest) st
    extract_entries-layout made nil dest st h = refl
    extract_entries-layout made (cons e es) dest st h =
        ap (λ r. go_on r (extract_entries writes creates es dest))
          (extract_entry-layout made e dest st h)
        ∙ go_on_ap (write_list (layout e dest) st) (extract_entries writes creates es dest)
            (write_list (layout_all es dest))
            (extract_entries-layout made es dest (write_list (layout e dest) st))
        ∙ sym (write_list-append (layout e dest) (layout_all es dest) st h)

  write_list_complete :
      (xs : List (Text × Bytes)) (st : Extracted)
      → ((p : Text) → writes p ≡ true)
      → st.ok ≡ true
      → ((write_list xs st).ok ≡ true) × ((write_list xs st).count ≡ st.count + length xs)
  unfolding write_list write_file
  write_list_complete [] st all h = (h, omega arith)
  write_list_complete ((p, b) ∷ xs) st all h =
      let after : Extracted = record {
        files = stored st.files p b;
        count = st.count + 1;
        ok = true;
      } in
      let (good, counted) = write_list_complete xs after all refl in
      rw (all p) (good, omega (arith, counted))

  -- Where the directories can be made, an embedded tree is extracted as the list of its files, each
  -- written under the names of its directories, in order and up to the first that cannot be written.
  pub extract_entries_lem :
      (made : (p : Text) → creates p ≡ true) (es : Entries) (dest : Text) (st : Extracted)
      → st.ok ≡ true
      → extract_entries writes creates es dest st ≡ write_list (layout_all es dest) st
  extract_entries_lem made es dest st h = extract_entries-layout made es dest st h

  -- If all can be written, the extraction succeeds and counts each of them.
  pub extract_entries_complete :
      (made : (p : Text) → creates p ≡ true) (all : (p : Text) → writes p ≡ true) (es : Entries)
      (dest : Text) (st : Extracted)
      → st.ok ≡ true
      → ((extract_entries writes creates es dest st).ok ≡ true)
        × ((extract_entries writes creates es dest st).count
            ≡ st.count + length (layout_all es dest))
  extract_entries_complete made all es dest st h =
      rw (extract_entries-layout made es dest st h)
        (write_list_complete (layout_all es dest) st all h)

-- What `install_to` asks of the system: whether a file can be written, a directory made, the executable
-- copied, and its permissions set; and whether two paths are the same file.
pub record InstallHost : Type 0 where
  pub writes : Text → Bool
  pub creates : Text → Bool
  pub copies : Text → Text → Bool
  pub sets_mode : Text → Bool
  pub same_file : Text → Text → Bool

pub data Outcome : Type 0 where
  failed : Outcome
  already_installed copied : (bin_dest : Text) → Outcome

abbrev default_binary_name : Bool → Text
default_binary_name windows = if windows then codes "weverywhere.exe" else codes "weverywhere"

abbrev exe_name : Bool → Option Text → Text
exe_name windows none = default_binary_name windows
exe_name windows (some name) = name

module _ (host : InstallHost) where
  -- The second part, the copying: `this_exe` and its file name are what the system says of them.
  unfoldable pub copy_binary : Bool → Text → Option Text → Text → Outcome
  copy_binary windows this_exe file_name bin_dest_dir =
      let bin_dest = joined bin_dest_dir (exe_name windows file_name) in
      if host.creates bin_dest_dir
      then if host.same_file this_exe bin_dest
        then already_installed bin_dest
        else if host.copies this_exe bin_dest
        then (if windows
            then copied bin_dest
            else if host.sets_mode bin_dest
            then copied bin_dest
            else failed)
        else failed
      else failed

  unfoldable pub install_to :
      Bool → Entries → Text → Text → Text → Text → Option Text → Files → Extracted × Outcome
  unfolding extract_entries copy_binary
  install_to windows templates root etc bin this_exe file_name files =
      let etc_dest = joined root etc in
      let fresh : Extracted = record { files = files; count = 0; ok = true } in
      let extracted = extract_entries host.writes host.creates templates etc_dest fresh in
      if host.creates etc_dest
      then if extracted.ok
        then (extracted, copy_binary windows this_exe file_name (joined root bin))
        else (extracted, failed)
      else (record fresh { ok = false }, failed)
