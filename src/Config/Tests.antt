-- ===== src/Config/Tests.antt =====
-- The theorems on internal/config/config.go over a file system in memory.
use filesearch.Base.{
  ℕ, zero, suc, ◌≡◌, refl, ap, ◌∙◌, subst, true, ltb, All, if◌then◌else◌, Option, none, some, List,
  [], ◌∷◌, Text, codes, text_eq_ne, text_eq_iff, lookup, insert, remove, lookup-insert,
  lookup-insert_self, arith,
}
use filesearch.Base.Result.{Error, Result, ok, err}
use filesearch.Config.{Config, Manager, FileSystem, IsFileSystem, Codec, load, save, add_dir}
use filesearch.Config.Persist.{Atomic, save-Atomic, load-save}

abbrev Files : Type 0
Files = List (Text × Text)

abbrev moved : Files → Text → Text → Option Text → Files × Option Error
moved s p q none = (s, some (codes "no such file" ∷ []))
moved s p q (some data_) = (insert q data_ (remove p s), none)

abbrev disk : FileSystem
disk = record {
  State = Files;
  file = λ s p. lookup p s;
  read_file = λ s p. ok (lookup p s);
  mkdir_parent = λ s p. (s, none);
  write_file = λ s p data_. (insert p data_ s, none);
  rename = λ s p q. moved s p q (lookup p s);
}

moved_lem :
    (s : Files) (p q : Text) (o : Option Text)
    → (moved s p q o).1 ≡ none
    → lookup q (moved s p q o).0 ≡ o
moved_lem s p q none h = cc
moved_lem s p q (some data_) h = lookup-insert_self q data_ (remove p s)

moved_failed :
    (s : Files) (p q : Text) (o : Option Text) (e : Error)
    → (moved s p q o).1 ≡ some e
    → lookup q (moved s p q o).0 ≡ lookup q s
moved_failed s p q none e h = refl
moved_failed s p q (some data_) e h = cc

disk-IsFileSystem : IsFileSystem disk
disk-IsFileSystem = record {
  read_file_lem = λ s p o h. cc;
  mkdir_parent_file = λ s p q. refl;
  write_file_lem = λ s p data_ h. lookup-insert_self p data_ s;
  write_file_other = λ s p data_ q ne. ground (arith, lookup-insert p q data_ s, text_eq_iff p q);
  rename_lem = λ s p q h. moved_lem s p q (lookup p s) h;
  rename_failed = λ s p q e h. moved_failed s p q (lookup p s) e h;
}

-- A codec: each text as its bytes, marked by a 1, and a 0; the mode first. What is no valid UTF-8, a byte
-- above 127 here, is replaced by a question mark.
abbrev replaced : ℕ → ℕ
replaced c = if ltb c 128 then c else b'?'

abbrev put_text : Text → Text → Text
put_text [] rest = 0 ∷ rest
put_text (c ∷ t) rest = 1 ∷ replaced c ∷ put_text t rest

abbrev put_texts : List Text → Text
put_texts [] = []
put_texts (t ∷ texts) = put_text t (put_texts texts)

abbrev put_before : ℕ → List Text → List Text
put_before c [] = (c ∷ []) ∷ []
put_before c (t ∷ texts) = (c ∷ t) ∷ texts

abbrev texts_of : Text → List Text
texts_of [] = []
texts_of (zero ∷ rest) = [] ∷ texts_of rest
texts_of (suc n ∷ []) = []
texts_of (suc n ∷ c ∷ rest) = put_before c (texts_of rest)

abbrev config_of : List Text → Result Config
config_of [] = err []
config_of (mode ∷ dirs) = ok (record { indexed_dirs = dirs; mode_override = mode })

abbrev codec : Codec
codec = record {
  marshal_indent = λ c. ok (put_texts (c.mode_override ∷ c.indexed_dirs));
  unmarshal = λ data_. config_of (texts_of data_);
}

-- ASCII
abbrev IsAscii : Text → Type 0
IsAscii t = All (λ c. ltb c 128 ≡ true) t

texts_of-put_text : (t rest : Text) → IsAscii t → texts_of (put_text t rest) ≡ t ∷ texts_of rest
texts_of-put_text [] rest ascii = refl
texts_of-put_text (c ∷ t) rest (small, ascii) = rw (small, texts_of-put_text t rest ascii) refl

texts_of-put_texts : (texts : List Text) → All IsAscii texts → texts_of (put_texts texts) ≡ texts
texts_of-put_texts [] ascii = refl
texts_of-put_texts (t ∷ texts) (here, ascii) =
    texts_of-put_text t (put_texts texts) here ∙ ap (λ r. t ∷ r) (texts_of-put_texts texts ascii)

codec_undo :
    (c : Config) (data_ : Text)
    → All IsAscii (c.mode_override ∷ c.indexed_dirs)
    → codec.marshal_indent c ≡ ok data_
    → codec.unmarshal data_ ≡ ok c
codec_undo c data_ ascii h =
    let e : put_texts (c.mode_override ∷ c.indexed_dirs) ≡ data_ = ground arith in
    subst (λ d. config_of (texts_of d) ≡ ok c) e
      (ap config_of (texts_of-put_texts (c.mode_override ∷ c.indexed_dirs) ascii))

abbrev manager : Manager
manager = record {
  path = codes "/c";
  cfg = record { indexed_dirs = codes "/a" ∷ []; mode_override = codes "eco" };
}

abbrev old_files : Files
old_files = (codes "/c", codes "slow") ∷ []

save-Atomic_example :
    Atomic disk codec disk-IsFileSystem old_files (save disk codec old_files manager).0 manager
save-Atomic_example = save-Atomic disk codec disk-IsFileSystem old_files manager

saved_at : (save disk codec old_files manager).1 ≡ none
unfolding save filesearch.Config.write_config lookup insert
saved_at = refl

loaded_at : load disk codec (save disk codec old_files manager).0 (codes "/c") ≡ ok manager
unfolding load save lookup filesearch.Config.write_config insert
loaded_at = refl

manager-IsAscii : All IsAscii (manager.cfg.mode_override ∷ manager.cfg.indexed_dirs)
manager-IsAscii = ((refl, (refl, (refl, tt))), ((refl, (refl, tt)), tt))

load-save_example : manager ≡ manager
load-save_example =
    load-save disk codec disk-IsFileSystem IsAscii old_files manager manager codec_undo
      manager-IsAscii (text_eq_ne (codes "/c") [] refl) saved_at loaded_at
