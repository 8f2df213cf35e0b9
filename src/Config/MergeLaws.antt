-- ===== src/Config/MergeLaws.antt =====
-- What the included override files can change of a configuration.
use weverywhere.Prelude.{
  ◌≡◌, refl, sym, ap, ◌∙◌, List, [], ◌∷◌, ◌++◌, append_assoc, append-nil, Option, none, some,
  Option-cases, inl, inr, Text, arith,
}
use weverywhere.Config.Peer.{PeerMetadata}
use weverywhere.Config.Merge.{
  ConfigOpt, Config, Files, fancy_omerge, fancy_omerge_vec, present, into_optioned,
  limits_or_default, all_present, try_from_optioned, merge_override, process_config_override_file,
  apply_entry, apply_entries, apply_include, apply_includes, read_from_file, ◌>>=◌,
}

some_inj {ℓ} : {A : Type ℓ} {a b : A} → some a ≡ some b → a ≡ b
some_inj e = cc

-- Lists extended at the end.
abbrev pub Extends {ℓ} : {A : Type ℓ} → List A → List A → Type ℓ
Extends {A = A} old new = (added : List A) × (new ≡ old ++ added)

Extends-refl {ℓ} : {A : Type ℓ} (l : List A) → Extends l l
Extends-refl l = ([], sym (append-nil l))

Extends-trans {ℓ} : {A : Type ℓ} (a b c : List A) → Extends a b → Extends b c → Extends a c
Extends-trans a b c (x, p) (y, q) = (x ++ y, rw (q, p) (append_assoc a x y))

-- The later configuration has the earlier one's includes, and its keys, startup programs and peers
-- before any others.
pub Keeps : Config → Config → Type 0
Keeps old new =
    (new.includes ≡ old.includes)
    × Extends old.trusted new.trusted
    × Extends old.startup_program new.startup_program
    × Extends old.peer new.peer

Keeps-refl : (c : Config) → Keeps c c
unfolding Keeps
Keeps-refl c = (refl, Extends-refl _, Extends-refl _, Extends-refl _)

Keeps-trans : (a b c : Config) → Keeps a b → Keeps b c → Keeps a c
unfolding Keeps
Keeps-trans a b c (i, t, s, p) (j, u, v, q) =
    (j ∙ i, Extends-trans _ _ _ t u, Extends-trans _ _ _ s v, Extends-trans _ _ _ p q)

all_present-present : (ts : List Text) → all_present (present ts) ≡ some ts
unfolding all_present present
all_present-present [] = refl
all_present-present (t ∷ ts) = rw (all_present-present ts) refl

-- What a chain of results that ends in a value went through.
bind-some {ℓ κ} :
    {A : Type ℓ} {B : Type κ} (o : Option A) (f : A → Option B) (b : B)
    → (o >>= f) ≡ some b
    → (a : A) × (o ≡ some a) × (f a ≡ some b)
bind-some none f b h = absurd cc
bind-some (some a) f b h = (a, refl, h)

all_present-append :
    (ts : List Text) (os : List (Option Text)) (us : List Text)
    → all_present (present ts ++ os) ≡ some us
    → Extends ts us
unfolding all_present present
all_present-append [] os us h = (us, refl)
all_present-append (t ∷ ts) os us h =
    let (vs, e, p) = bind-some (all_present (present ts ++ os)) (λ v. some (t ∷ v)) us h in
    let (added, q) = all_present-append ts os vs e in (added, rw (sym (some_inj p), q) refl)

merged_list-Extends :
    (ts : List Text) (o : Option (List (Option Text))) (us : List Text)
    → (fancy_omerge_vec (some (present ts)) o >>= all_present) ≡ some us
    → Extends ts us
unfolding fancy_omerge_vec
merged_list-Extends ts none us h =
    all_present-append ts [] us (ap all_present (append-nil (present ts)) ∙ h)
merged_list-Extends ts (some os) us h = all_present-append ts os us h

merged_includes :
    (ts us : List Text)
    → (fancy_omerge_vec (some (present ts)) none >>= all_present) ≡ some us
    → us ≡ ts
unfolding fancy_omerge_vec
merged_includes ts us h = some_inj (sym h ∙ all_present-present ts)

merged_peers-Extends :
    (ps : List PeerMetadata) (o : Option (List PeerMetadata)) (qs : List PeerMetadata)
    → fancy_omerge_vec (some ps) o ≡ some qs
    → Extends ps qs
unfolding fancy_omerge_vec
merged_peers-Extends ps none qs e = ([], sym (some_inj e) ∙ sym (append-nil ps))
merged_peers-Extends ps (some os) qs e = (os, sym (some_inj e))

-- The list fields of a full configuration come from those of its optional form.
from-lists :
    (o : ConfigOpt) (c : Config)
    → try_from_optioned o ≡ some c
    → ((o.trusted >>= all_present) ≡ some c.trusted)
      × ((o.startup_program >>= all_present) ≡ some c.startup_program)
      × ((o.includes >>= all_present) ≡ some c.includes)
      × (o.peer ≡ some c.peer)
unfolding try_from_optioned
from-lists o c h = ground arith

merge_override-Keeps :
    (files : Files) (c d : Config) (o : ConfigOpt) → merge_override files c o ≡ some d → Keeps c d
unfolding merge_override into_optioned Keeps
merge_override-Keeps files c d o h =
    let config_o = into_optioned c in
    let ours = limits_or_default config_o.limits in
    let theirs = limits_or_default o.limits in
    let (_, _, h1) =
      bind-some (fancy_omerge files.omerge_identity config_o.identity o.identity) _ d h in
    let (_, _, h2) =
      bind-some (fancy_omerge files.omerge_limit ours.trusted theirs.trusted) _ d h1 in
    let (_, _, h3) =
      bind-some (fancy_omerge files.omerge_limit ours.untrusted theirs.untrusted) _ d h2 in
    let (t, s, i, p) = from-lists _ d h3 in
    (
      merged_includes c.includes d.includes i,
      merged_list-Extends c.trusted o.trusted d.trusted t,
      merged_list-Extends c.startup_program o.startup_program d.startup_program s,
      merged_peers-Extends c.peer o.peer d.peer p,
    )

apply_entry-Keeps : (files : Files) (c : Config) (e : Option Text) → Keeps c (apply_entry files c e)
unfolding apply_entry process_config_override_file
apply_entry-Keeps files c none = Keeps-refl c
apply_entry-Keeps files c (some path) =
    elim (Option-cases (process_config_override_file files c path)) [
      | inl e ↦ rw e (Keeps-refl c)
      | inr (d, e) ↦
          let (o, _, h) = bind-some (files.read_override path) (merge_override files c) d e in
          rw e (merge_override-Keeps files c d o h)
    ]

apply_entries-Keeps :
    (files : Files) (c : Config) (es : List (Option Text)) → Keeps c (apply_entries files c es)
unfolding apply_entries
apply_entries-Keeps files c [] = Keeps-refl c
apply_entries-Keeps files c (e ∷ es) =
    Keeps-trans c (apply_entry files c e) _ (apply_entry-Keeps files c e)
      (apply_entries-Keeps files (apply_entry files c e) es)

apply_include-Keeps : (files : Files) (c : Config) (i : Text) → Keeps c (apply_include files c i)
unfolding apply_include
apply_include-Keeps files c i = elim (Option-cases (files.glob i)) [
  | inl e ↦ rw (e, apply_include) (Keeps-refl c)
  | inr (es, e) ↦ rw (e, apply_include) (apply_entries-Keeps files c es)
]

apply_includes-Keeps :
    (files : Files) (c : Config) (is : List Text) → Keeps c (apply_includes files c is)
unfolding apply_includes
apply_includes-Keeps files c [] = Keeps-refl c
apply_includes-Keeps files c (i ∷ is) =
    Keeps-trans c (apply_include files c i) _ (apply_include-Keeps files c i)
      (apply_includes-Keeps files (apply_include files c i) is)

-- Whatever the included files contain, and whatever of them cannot be read, parsed or merged, the
-- configuration that loads keeps the includes of the main file, so that inclusion never goes deeper,
-- and has all of the main file's trusted keys, startup programs and peers before those of other
-- files.
pub read_from_file-Keeps : (files : Files) (c : Config) → Keeps c (read_from_file files c)
unfolding read_from_file
read_from_file-Keeps files c = apply_includes-Keeps files c c.includes
