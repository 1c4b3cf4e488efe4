-- ===== src/Config/Persist.antt =====
-- What internal/config/config.go keeps on disk and in memory.
use filesearch.Base.{
  ◌≡◌, ◌≢◌, ◌⊎◌, inl, inr, refl, ap, ◌∙◌, true, Bool-cases, Option-cases, Option, none, some, List,
  [], ◌∷◌, ◌++◌, Text, codes, length, length-append, text_eq_refl, member, All, arith,
}
use filesearch.Base.Result.{Result, ok, err}
use filesearch.Config.{
  Config, Manager, FileSystem, IsFileSystem, Codec, tmp_path, load, save, write_config, add_dir,
}

tmp_ne : (path : Text) → tmp_path path ≢ path
tmp_ne path same = omega (arith, ap length same, length-append path (codes ".tmp"))

module _ (fs : FileSystem) (json : Codec) (os : IsFileSystem fs) where
  -- The file is the old one, or the whole of the new one.
  pub Atomic : fs.State → fs.State → Manager → Type 0
  Atomic s t m =
      (fs.file t m.path ≡ fs.file s m.path)
      ⊎ ((data_ : Text) × (json.marshal_indent m.cfg ≡ ok data_) × (fs.file t m.path ≡ some data_))

  write_config_atomic :
      (s : fs.State) (path data_ : Text)
      → (fs.file (write_config fs json s path data_).0 path ≡ fs.file s path)
        ⊎ (fs.file (write_config fs json s path data_).0 path ≡ some data_)
  unfolding write_config
  write_config_atomic s path data_ =
      let other = os.write_file_other s (tmp_path path) data_ path (tmp_ne path) in
      elim (Option-cases (fs.write_file s (tmp_path path) data_).1) [
        | inr (e, bad) ↦ inl (rw (bad, write_config) other)
        | inl good ↦
            let s1 = (fs.write_file s (tmp_path path) data_).0 in
            elim (Option-cases (fs.rename s1 (tmp_path path) path).1) [
              | inl moved ↦ inr (
                  rw (good, write_config)
                    (os.rename_lem s1 (tmp_path path) path moved
                      ∙ os.write_file_lem s (tmp_path path) data_ good))
              | inr (e, kept) ↦ inl (
                  rw (good, write_config) (os.rename_failed s1 (tmp_path path) path e kept ∙ other))
            ]
      ]

  -- Whichever call fails, `save` leaves the settings file as it was or holds all of the new one.
  pub save-Atomic : (s : fs.State) (m : Manager) → Atomic s (save fs json s m).0 m
  unfolding save Atomic
  save-Atomic s m =
      let same = os.mkdir_parent_file s m.path m.path in
      elim (Option-cases (fs.mkdir_parent s m.path).1) [
        | inr (e, bad) ↦ inl (rw (bad, save, Atomic) same)
        | inl good ↦ go (json.marshal_indent m.cfg) refl good same
      ]
    where
      go :
          (encoded : Result Text)
          → json.marshal_indent m.cfg ≡ encoded
          → (fs.mkdir_parent s m.path).1 ≡ none
          → fs.file (fs.mkdir_parent s m.path).0 m.path ≡ fs.file s m.path
          → Atomic s (save fs json s m).0 m
      go (err e) at good same = inl (rw (good, at, save, Atomic) same)
      go (ok data_) at good same =
          rw (good, at, save, Atomic)
            (elim (write_config_atomic (fs.mkdir_parent s m.path).0 m.path data_) [
              | inl old ↦ inl (old ∙ same)
              | inr new ↦ inr (data_, refl, new)
            ])

  save_file :
      (s : fs.State) (m : Manager)
      → (save fs json s m).1 ≡ none
      → (data_ : Text) × (json.marshal_indent m.cfg ≡ ok data_)
        × (fs.file (save fs json s m).0 m.path ≡ some data_)
  unfolding save write_config
  save_file s m h = elim (Option-cases (fs.mkdir_parent s m.path).1) [
    | inr (e, bad) ↦ absurd (ground (arith, h, bad))
    | inl good ↦ go (json.marshal_indent m.cfg) refl good
  ]
    where
      go :
          (encoded : Result Text)
          → json.marshal_indent m.cfg ≡ encoded
          → (fs.mkdir_parent s m.path).1 ≡ none
          → (data_ : Text) × (json.marshal_indent m.cfg ≡ ok data_)
            × (fs.file (save fs json s m).0 m.path ≡ some data_)
      go (err e) at good = absurd (ground (arith, h, at, good))
      go (ok data_) at good =
          let s1 = (fs.mkdir_parent s m.path).0 in
          let s2 = (fs.write_file s1 (tmp_path m.path) data_).0 in
          elim (Option-cases (fs.write_file s1 (tmp_path m.path) data_).1) [
            | inr (e, bad) ↦ absurd (ground (arith, h, at, good, bad))
            | inl wrote ↦
                let moved : (fs.rename s2 (tmp_path m.path) m.path).1 ≡ none =
                  ground (arith, h, at, good, wrote) in
                (
                  data_,
                  at,
                  rw (good, at, wrote, save, write_config)
                      (os.rename_lem s2 (tmp_path m.path) m.path moved
                        ∙ os.write_file_lem s1 (tmp_path m.path) data_ wrote),
                )
          ]

  -- After a `save` with no error, `Load` of the same path, which is not empty, gives the settings
  -- that were saved if it gives any, where the texts of the settings are valid UTF-8 and
  -- `json.Unmarshal` undoes `json.MarshalIndent` on settings with such texts.
  pub load-save :
      (IsUtf8 : Text → Type 0) (s : fs.State) (m m' : Manager)
      → ((c : Config) (data_ : Text)
          → All IsUtf8 (c.mode_override ∷ c.indexed_dirs)
          → json.marshal_indent c ≡ ok data_
          → json.unmarshal data_ ≡ ok c)
      → All IsUtf8 (m.cfg.mode_override ∷ m.cfg.indexed_dirs)
      → m.path ≢ []
      → (save fs json s m).1 ≡ none
      → load fs json (save fs json s m).0 m.path ≡ ok m'
      → m' ≡ m
  unfolding load
  load-save IsUtf8 s m m' undo utf8 set h l = go (fs.read_file (save fs json s m).0 m.path) refl
    where
      go : (r : Result (Option Text)) → fs.read_file (save fs json s m).0 m.path ≡ r → m' ≡ m
      go (err e) at = absurd (ground (arith, l, at, set))
      go (ok o) at =
          let (data_, encoded, there) = save_file s m h in
          let is : o ≡ some data_ = os.read_file_lem (save fs json s m).0 m.path o at ∙ there in
          ground (arith, l, at, set, is, undo m.cfg data_ utf8 encoded)

-- Adding a directory.
member-append : (dir : Text) (dirs : List Text) → member dir (dirs ++ dir ∷ []) ≡ true
member-append dir [] = ground (arith, text_eq_refl dir)
member-append dir (d ∷ dirs) = ground (arith, member-append dir dirs)

-- After an `AddDir`, whether or not it could save, another one of the same directory reports no
-- error and writes nothing.
pub add_dir_again :
    (fs : FileSystem) (json : Codec) (s t : fs.State) (m : Manager) (dir : Text)
    → add_dir fs json t (add_dir fs json s m dir).0 dir ≡ ((add_dir fs json s m dir).0, t, none)
unfolding add_dir
add_dir_again fs json s t m dir = elim (Bool-cases (member dir m.cfg.indexed_dirs)) [
  | inl there ↦ rw (there, there) refl
  | inr new ↦ rw new (rw (member-append dir m.cfg.indexed_dirs) refl)
]
