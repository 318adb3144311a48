-- ===== src/Ingest/Archive/Safe.antt =====
-- The archives that the validation lets pass (clerksan/ingest/limits.py, `safe_zip_members`).
use clerk_san.Prelude.{
  Bool, Ensures, Ensures-bind, Ensures-ok, In, List, String, [], ap, append_assoc, append_nil,
  arith, false, inl, inr, leb, length, map, negsuc, not, ok, ok_injective, pos, refl, require,
  require-holds, subst, sym, true, ℕ, ℤ, ◌++◌, ◌+◌, ◌∙◌, ◌∷◌, ◌≡◌, ◌≤◌,
}
use clerk_san.Ingest.Limits.{IngestLimits, within, unsafe_archive_member, resource_limit_exceeded}
use clerk_san.Ingest.Archive.{
  ArchiveMember, Paths, Validator, add, expands_too_far, is_safe_path, member_size, add_all,
  safe_zip_members, finish, fresh_validator,
}

abbrev pub magnitude : ℤ → ℕ
magnitude (pos n) = n
magnitude (negsuc n) = 0

abbrev pub is_nonnegative : ℤ → Bool
is_nonnegative (pos n) = true
is_nonnegative (negsuc n) = false

not-eq-true : (b : Bool) → not b ≡ true → b ≡ false
not-eq-true b h = ground arith

module _ (size_of : ArchiveMember → ℤ) where
  unfoldable pub total : List ArchiveMember → ℕ
  total [] = 0
  total (member ∷ members) = magnitude (size_of member) + total members

module _ (paths : Paths) (limits : IngestLimits) where
  pub record IsSafeMember (member : ArchiveMember) : Type 0 where
    pub path : is_safe_path paths limits member.name ≡ true
    pub no_link : member.is_symlink ≡ false
    pub sizes :
        (is_nonnegative member.compressed_size ≡ true)
        × (is_nonnegative member.uncompressed_size ≡ true)
    pub expansion :
        expands_too_far paths limits
          (magnitude member.uncompressed_size)
          (magnitude member.compressed_size)
        ≡ false

  abbrev pub added : ArchiveMember → Validator → Validator
  added member v = record {
    member_count = v.member_count + 1;
    total_compressed = v.total_compressed + magnitude member.compressed_size;
    total_uncompressed = v.total_uncompressed + magnitude member.uncompressed_size;
    names = v.names ++ (member.name ∷ []);
  }

  member_size-eq-ok :
      (size : ℤ) (n : ℕ)
      → member_size paths limits size ≡ ok n
      → (is_nonnegative size ≡ true) × (magnitude size ≡ n)
  member_size-eq-ok (pos m) n h = (refl, ok_injective h)
  member_size-eq-ok (negsuc m) n h = cc

  pub record IsAdded (member : ArchiveMember) (v next : Validator) : Type 0 where
    pub safe : IsSafeMember member
    pub next_eq : next ≡ added member v
    pub bounded : next.total_uncompressed ≤ limits.max_archive_uncompressed_bytes

  add-IsAdded :
      (member : ArchiveMember) (v : Validator)
      → Ensures (IsAdded member v) (add paths limits member v)
  unfolding add
  add-IsAdded member v =
      Ensures-bind (within "max_archive_members" limits.max_archive_members (v.member_count + 1)) _
        λ a _.
          Ensures-bind (require (is_safe_path paths limits member.name) unsafe_archive_member) _
            λ b path.
              Ensures-bind (require (not member.is_symlink) unsafe_archive_member) _ λ c no_link.
                Ensures-bind (member_size paths limits member.compressed_size) _ λ compressed e.
                  Ensures-bind (member_size paths limits member.uncompressed_size) _
                    λ uncompressed f.
                      Ensures-bind
                        (require (not (expands_too_far paths limits uncompressed compressed))
                          (resource_limit_exceeded "max_archive_expansion_ratio"))
                        _
                        λ d ratio.
                          Ensures-bind
                            (within "max_archive_uncompressed_bytes"
                              limits.max_archive_uncompressed_bytes
                              (v.total_uncompressed + uncompressed))
                            _
                            λ g bounded.
                              let (sign_c, size_c) =
                                member_size-eq-ok member.compressed_size compressed e in
                              let (sign_u, size_u) =
                                member_size-eq-ok member.uncompressed_size uncompressed f in
                              let fits =
                                require-holds
                                  (leb (v.total_uncompressed + uncompressed)
                                    limits.max_archive_uncompressed_bytes)
                                  _ g bounded in
                              Ensures-ok _ record {
                                safe = record {
                                  path = require-holds _ _ b path;
                                  no_link =
                                      ground
                                        (arith, require-holds (not member.is_symlink) _ c no_link);
                                  sizes = (sign_c, sign_u);
                                  expansion =
                                      rw (size_c, size_u)
                                        (not-eq-true
                                          (expands_too_far paths limits uncompressed compressed)
                                          (require-holds _ _ d ratio));
                                };
                                next_eq = rw (size_c, size_u) refl;
                                bounded = ground arith;
                              }

  -- What the members that were added so far say of the validator
  pub record IsTally (members : List ArchiveMember) (v next : Validator) : Type 0 where
    pub safe : (member : ArchiveMember) → In member members → IsSafeMember member
    pub count : next.member_count ≡ v.member_count + length members
    pub compressed :
        next.total_compressed
        ≡ v.total_compressed + total (λ member. member.compressed_size) members
    pub uncompressed :
        next.total_uncompressed
        ≡ v.total_uncompressed + total (λ member. member.uncompressed_size) members
    pub names : next.names ≡ v.names ++ map (λ member. member.name) members
    pub bounded :
        v.total_uncompressed ≤ limits.max_archive_uncompressed_bytes
        → next.total_uncompressed ≤ limits.max_archive_uncompressed_bytes

  pub add_all-IsTally :
      (members : List ArchiveMember) (v : Validator)
      → Ensures (IsTally members v) (add_all paths limits members v)
  unfolding add_all total
  add_all-IsTally [] v = Ensures-ok v record {
    safe = λ member m. absurd m;
    count = omega arith;
    compressed = omega arith;
    uncompressed = omega arith;
    names = sym (append_nil v.names);
    bounded = λ h. h;
  }
  add_all-IsTally (member ∷ members) v = Ensures-bind (add paths limits member v) _ λ next e.
      record {
        at = λ last f.
            let step = (add-IsAdded member v).at next e in
            let rest = (add_all-IsTally members next).at last f in
            record {
              safe = λ other m. elim m [
                | inl p ↦ subst IsSafeMember (sym p) step.safe
                | inr n ↦ rest.safe other n
              ];
              count =
                  omega (arith, rest.count, ap (λ (w : Validator). w.member_count) step.next_eq);
              compressed =
                  omega (
                    arith,
                    rest.compressed,
                    ap (λ (w : Validator). w.total_compressed) step.next_eq,
                  );
              uncompressed = omega (
                arith,
                rest.uncompressed,
                ap (λ (w : Validator). w.total_uncompressed) step.next_eq,
              );
              names =
                  rest.names
                  ∙ ap
                      (λ (w : Validator).
                        w.names ++ map (λ (other : ArchiveMember). other.name) members)
                      step.next_eq
                  ∙ append_assoc v.names (member.name ∷ []) (map (λ other. other.name) members);
              bounded = λ h. rest.bounded step.bounded;
            };
      }

  pub record IsSafeArchive (members : List ArchiveMember) (names : List String) : Type 0 where
    pub safe : (member : ArchiveMember) → In member members → IsSafeMember member
    pub listed : names ≡ map (λ member. member.name) members
    pub few : length members ≤ limits.max_archive_members
    pub bounded :
        total (λ member. member.uncompressed_size) members ≤ limits.max_archive_uncompressed_bytes
    pub expansion :
        expands_too_far paths limits
          (total (λ member. member.uncompressed_size) members)
          (total (λ member. member.compressed_size) members)
        ≡ false

  -- The members that the validation lets pass are listed in their order, and are safe: each has a
  -- path without roots, drives, NUL bytes, backslashes and ambiguous parts, is no symbolic link, has
  -- sizes of no negative sign and does not expand too far; and all together they are no more than
  -- the limit, are no larger than the limit when expanded, and do not expand too far.
  pub safe_zip_members_lem :
      (members : List ArchiveMember) (names : List String)
      → safe_zip_members paths limits members ≡ ok names
      → IsSafeArchive members names
  unfolding safe_zip_members finish
  safe_zip_members_lem members names h =
      let chain =
        Ensures-bind {P = IsSafeArchive members}
          (within "max_archive_members" limits.max_archive_members (length members)) _
          λ a few. Ensures-bind (add_all paths limits members fresh_validator) _ λ v e.
            Ensures-bind
              (require (not (expands_too_far paths limits v.total_uncompressed v.total_compressed))
                (resource_limit_exceeded "max_archive_expansion_ratio"))
              _
              λ b ratio.
                let tally = (add_all-IsTally members fresh_validator).at v e in
                let fits =
                  require-holds (leb (length members) limits.max_archive_members) _ a few in
                Ensures-ok v.names record {
                  safe = tally.safe;
                  listed = tally.names;
                  few = ground arith;
                  bounded = omega (arith, tally.uncompressed, tally.bounded);
                  expansion =
                      subst
                        (λ n.
                          expands_too_far paths limits n
                            (total (λ member. member.compressed_size) members)
                          ≡ false)
                        (omega (arith, tally.uncompressed))
                        (subst (λ n. expands_too_far paths limits v.total_uncompressed n ≡ false)
                          (omega (arith, tally.compressed))
                          (not-eq-true _ (require-holds _ _ b ratio)));
                } in
      chain.at names h
