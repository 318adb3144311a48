-- ===== src/Ingest/Directory/Tiling.antt =====
-- The entries of an accepted central directory fill it without gaps, and are members that
-- `safe_zip_members` lets pass (clerksan/ingest/limits.py, `safe_zip_central_directory`).
use clerk_san.Prelude.{
  >>=-eq-ok, Bool-cases, Ensures, Ensures-bind, Ensures-ok, In, List, Option, String, [], ap, arith,
  eq_iff, false, inl, inr, leb, length, map, none, not, ok, ok_injective, refl, require,
  require-holds, some, subst, suc, sym, true, zero, ℕ, ◌&&◌, ◌+◌, ◌-◌, ◌==◌, ◌↔◌, ◌∙◌, ◌∷◌, ◌≡◌,
  ◌≤◌, ◌⊎◌,
}
use clerk_san.Ingest.Zip64.{zip_member_sizes}
use clerk_san.Jobs.Fields.{contains}
use clerk_san.Ingest.Limits.{IngestLimits, resource_limit_exceeded, unsafe_archive_member, within}
use clerk_san.Ingest.Bytes.{field, slice}
use clerk_san.Ingest.Archive.{
  ArchiveMember, Paths, Validator, add, add_all, expands_too_far, finish, fresh_validator,
  safe_zip_members,
}
use clerk_san.Ingest.Archive.Safe.{add_all-IsTally, added}
use clerk_san.Ingest.Directory.{
  EndRecord, Zipfile, add_name, central_signature, decode_zip_member_name, present, read_entries,
  read_entry, safe_zip_central_directory, size_central_dir,
}

contains-In : (name : String) (names : List String) → contains name names ≡ true → In name names
contains-In name [] h = cc
contains-In name (x ∷ names) h = ground (arith, eq_iff name x, contains-In name names)

add_name-In :
    (name other : String) (names : List String)
    → In other (add_name name names) ↔ ((other ≡ name) ⊎ In other names)
add_name-In name other names = elim (Bool-cases (contains name names)) [
  | inl t ↦ rw t (
    λ m. inr m,
    λ m. elim m [ inl e ↦ subst (λ x. In x names) (sym e) (contains-In name names t) | inr n ↦ n ],
  )
  | inr f ↦ rw f (λ m. m, λ m. m)
]

regroup : {A B C D R : Type 0} → R ↔ (D ⊎ C) → D ↔ (B ⊎ A) → R ↔ (A ⊎ (B ⊎ C))
regroup {A} {B} {C} {D} {R} h k = (
  λ r. elim (h.0 r) [
    | inl d ↦ elim (k.0 d) [ inl b ↦ inr (inl b) | inr a ↦ inl a ]
    | inr c ↦ inr (inr c)
  ],
  λ x. elim x [
    | inl a ↦ h.1 (inl (k.1 (inr a)))
    | inr y ↦ elim y [ inl b ↦ h.1 (inl (k.1 (inl b))) | inr c ↦ h.1 (inr c) ]
  ],
)

present-eq-ok : (o : Option EndRecord) (found : EndRecord) → present o ≡ ok found → o ≡ some found
present-eq-ok none found h = cc
present-eq-ok (some x) found h = ap some (ok_injective h)

safe_zip_members-eq-ok :
    (paths : Paths) (limits : IngestLimits) (members : List ArchiveMember) (v : Validator)
    → length members ≤ limits.max_archive_members
    → add_all paths limits members fresh_validator ≡ ok v
    → expands_too_far paths limits v.total_uncompressed v.total_compressed ≡ false
    → safe_zip_members paths limits members ≡ ok v.names
unfolding safe_zip_members finish
safe_zip_members-eq-ok paths limits members v few added h =
    let fits : leb (length members) limits.max_archive_members ≡ true = ground arith in
    rw fits (rw added (rw h refl))

module _ (zipfile : Zipfile) (paths : Paths) (limits : IngestLimits) (archive : List ℕ) where
  -- The members' entries stand one behind the other, from the cursor to `stop`, none beyond the
  -- directory's end.
  abbrev pub Tiles : ℕ → ℕ → List ArchiveMember → ℕ → Type 0
  Tiles directory_end cursor [] stop = cursor ≡ stop
  Tiles directory_end cursor (member ∷ members) stop =
      (next : ℕ) × (read_entry zipfile paths limits archive directory_end cursor
        ≡ ok (member, next))
      × (cursor + size_central_dir ≤ next)
      × (next ≤ directory_end)
      × Tiles directory_end next members stop

  read_entry-bounds :
      (directory_end cursor : ℕ)
      → Ensures
          (λ (entry : ArchiveMember × ℕ).
            (cursor + size_central_dir ≤ entry.1) × (entry.1 ≤ directory_end))
          (read_entry zipfile paths limits archive directory_end cursor)
  unfolding read_entry
  read_entry-bounds directory_end cursor =
      Ensures-bind (require (leb (cursor + size_central_dir) directory_end) unsafe_archive_member) _
        λ a _.
          Ensures-bind (require (field archive cursor 4 == central_signature) unsafe_archive_member)
            _
            λ b _.
              Ensures-bind
                (require
                  (leb
                    (cursor
                      + size_central_dir
                      + field archive (cursor + 28) 2
                      + field archive (cursor + 30) 2
                      + field archive (cursor + 32) 2)
                    directory_end)
                  unsafe_archive_member)
                _
                λ c inside.
                  Ensures-bind
                    (decode_zip_member_name zipfile
                      (slice archive (cursor + size_central_dir)
                        (cursor + size_central_dir + field archive (cursor + 28) 2))
                      (field archive (cursor + 8) 2))
                    _
                    λ name _.
                      Ensures-bind
                        (zip_member_sizes (field archive (cursor + 20) 4)
                          (field archive (cursor + 24) 4)
                          (slice archive (cursor + size_central_dir + field archive (cursor + 28) 2)
                            (cursor
                              + size_central_dir
                              + field archive (cursor + 28) 2
                              + field archive (cursor + 30) 2)))
                        _
                        λ sizes _.
                          let fits =
                            require-holds
                              (leb
                                (cursor
                                  + size_central_dir
                                  + field archive (cursor + 28) 2
                                  + field archive (cursor + 30) 2
                                  + field archive (cursor + 32) 2)
                                directory_end)
                              _ c inside in
                          Ensures-ok _ (omega arith, ground arith)

  -- What the loop has read when it ends
  record IsRead (directory_end count cursor : ℕ) (v : Validator) (names : List String)
      (result : ℕ × Validator × List String) : Type 0 where
    members : List ArchiveMember
    counted : length members ≡ count
    tiles : Tiles directory_end cursor members result.0
    added : add_all paths limits members v ≡ ok result.1
    named :
        (name : String)
        → In name result.2
          ↔ (In name names ⊎ In name (map (λ (member : ArchiveMember). member.name) members))

  read_entries-IsRead :
      (directory_end count cursor : ℕ) (v : Validator) (names : List String)
      → Ensures
          (IsRead directory_end count cursor v names)
          (read_entries zipfile paths limits archive directory_end count cursor v names)
  unfolding read_entries add_all
  read_entries-IsRead directory_end zero cursor v names =
      Ensures-ok (cursor, v, names)
        record {
          members = [];
          counted = refl;
          tiles = refl;
          added = refl;
          named = λ name. (λ m. inl m, λ m. elim m [ inl n ↦ n | inr n ↦ absurd n ]);
        }
  read_entries-IsRead directory_end (suc count) cursor v names =
      Ensures-bind (read_entry zipfile paths limits archive directory_end cursor) _ λ entry e.
        Ensures-bind (add paths limits entry.0 v) _ λ next f. record {
          at = λ result g.
              let bounds = (read_entry-bounds directory_end cursor).at entry e in
              let rest =
                (read_entries-IsRead directory_end count entry.1 next
                    (add_name entry.0.name names)).at
                  result g in
              record {
                members = entry.0 ∷ rest.members;
                counted = ap suc rest.counted;
                tiles = (entry.1, e, bounds.0, bounds.1, rest.tiles);
                added = rw f rest.added;
                named = λ name. regroup (rest.named name) (add_name-In entry.0.name name names);
              };
        }

  pub record IsDirectory (end : EndRecord) (names : List String) : Type 0 where
    pub members : List ArchiveMember
    pub counted : length members ≡ end.entries_total
    pub inside : end.location ≤ length archive
    pub tiles : Tiles end.location (end.location - end.size) members end.location
    pub safe :
        safe_zip_members paths limits members
        ≡ ok (map (λ (member : ArchiveMember). member.name) members)
    pub named :
        (name : String)
        → In name names ↔ In name (map (λ (member : ArchiveMember). member.name) members)

  read_entries-IsDirectory :
      (end : EndRecord) (read : ℕ × Validator × List String) (finished : List String)
      → leb end.entries_total limits.max_archive_members ≡ true
      → (leb end.size end.location && leb end.location (length archive)) ≡ true
      → (read.0 == end.location) ≡ true
      → IsRead end.location end.entries_total (end.location - end.size) fresh_validator [] read
      → finish paths limits read.1 ≡ ok finished
      → IsDirectory end read.2
  unfolding finish
  read_entries-IsDirectory end read finished few inside at_end r f =
      let tally = (add_all-IsTally paths limits r.members fresh_validator).at read.1 r.added in
      let (u, ratio, _) =
        >>=-eq-ok
          (require
            (not (expands_too_far paths limits read.1.total_uncompressed read.1.total_compressed))
            (resource_limit_exceeded "max_archive_expansion_ratio"))
          _ f in
      let calm : expands_too_far paths limits read.1.total_uncompressed read.1.total_compressed
          ≡ false =
        ground (arith, require-holds _ _ u ratio) in
      record {
        members = r.members;
        counted = r.counted;
        inside = ground arith;
        tiles =
            subst (λ n. Tiles end.location (end.location - end.size) r.members n) (ground arith)
              r.tiles;
        safe =
            safe_zip_members-eq-ok paths limits r.members read.1 (ground (arith, r.counted)) r.added
              calm
            ∙ ap ok tally.names;
        named = λ name. (
          λ m. elim ((r.named name).0 m) [ inl n ↦ absurd n | inr n ↦ n ],
          λ m. (r.named name).1 (inr m),
        );
      }

  -- A central directory that is accepted lies in the archive's bytes, the entries that are read fill
  -- it from its start to its end without gaps, as many as its end record says, and
  -- `safe_zip_members` lets their members pass; the names returned are exactly the members' names.
  pub safe_zip_central_directory_lem :
      (names : List String)
      → safe_zip_central_directory zipfile paths limits archive ≡ ok names
      → (end : EndRecord) × (zipfile.end_record archive ≡ some end) × IsDirectory end names
  unfolding safe_zip_central_directory finish
  safe_zip_central_directory_lem names h =
      let chain =
        Ensures-bind
          {P = λ names.
            (end : EndRecord) × (zipfile.end_record archive ≡ some end) × IsDirectory end names}
          (present (zipfile.end_record archive)) _
          λ end found.
            Ensures-bind
              (require
                (end.disk_number == 0
                  && end.disk_start == 0
                  && end.entries_this_disk == end.entries_total)
                unsafe_archive_member)
              _
              λ a _.
                Ensures-bind
                  (within "max_archive_members" limits.max_archive_members end.entries_total) _
                  λ b few.
                    Ensures-bind
                      (require (leb end.size end.location && leb end.location (length archive))
                        unsafe_archive_member)
                      _
                      λ c inside.
                        Ensures-bind
                          (read_entries zipfile paths limits archive end.location end.entries_total
                            (end.location - end.size) fresh_validator [])
                          _
                          λ read e.
                            Ensures-bind (require (read.0 == end.location) unsafe_archive_member) _
                              λ d at_end. Ensures-bind (finish paths limits read.1) _ λ finished f.
                                Ensures-ok read.2 (
                                  end,
                                  present-eq-ok (zipfile.end_record archive) end found,
                                  read_entries-IsDirectory end read finished
                                      (require-holds _ _ b few) (require-holds _ _ c inside)
                                      (require-holds _ _ d at_end)
                                      ((read_entries-IsRead end.location end.entries_total
                                          (end.location - end.size) fresh_validator []).at
                                        read e)
                                      f,
                                ) in
      chain.at names h
