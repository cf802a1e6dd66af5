-- ===== src/Trust/Laws.antt =====
-- What a resolved key is, and which keys resolve.
use mathlib.Core.List.{Memᴰ}
use client_api.Prelude.{
  Bytes, bytes_eq, bytes_beq_iff, ◌≡◌, ◌≢◌, Bool, true, false, not, ◌||◌, Option, List, [], ◌∷◌,
  ◌==◌, contains, length, ok, >>=-eq-ok, >>-eq-ok, reject-eq-ok, arith, inl, inr, Bool-cases,
  eq_of_beq, sym, ap, beq_refl, nat_eq, int_eq,
}
use client_api.Go.Strings.{trim_space}
use client_api.Types.Time.{Time}
use client_api.Types.Keys.{SigningTrustKey, SigningTrustBundle}
use client_api.External.{External}
use client_api.Trust.{
  signing_trust_bundle_version, signing_key_id, signing_key_algorithm_ed25519, is_bad_window,
  starts_later, has_ended, validate_key, validate_keys, validate, find_key, resolve,
}

-- The key is in its validity window at `at`.
abbrev pub IsWithin : Option Time → Option Time → Time → Type 0
IsWithin start end at = (starts_later start at ≡ false) × (has_ended end at ≡ false)

module _ ⦃x : External⦄ where
  -- A key whose ID is derived from its public key.
  pub record IsSound (key : SigningTrustKey) : Type 0 where
    pub derived : signing_key_id key.public_key ≡ ok (trim_space key.key_id)
    pub algorithm_known : trim_space key.algorithm ≡ signing_key_algorithm_ed25519
    pub named : trim_space key.key_id ≢ []
    pub window : is_bad_window key.not_before key.not_after ≡ false

  validate_key-IsSound :
      (seen : List Bytes) (key : SigningTrustKey)
      → validate_key seen key ≡ ok tt
      → IsSound key × (contains (trim_space key.key_id) seen ≡ false)
  unfolding validate_key
  validate_key-IsSound seen key h =
      let id = trim_space key.key_id in
      let (a, h1) = reject-eq-ok (id == []) _ _ h in
      let (b, h2) = reject-eq-ok (contains id seen) _ _ h1 in
      let (c, h3) =
        reject-eq-ok (not (trim_space key.algorithm == signing_key_algorithm_ed25519)) _ _ h2 in
      let (d, k, h4) = >>=-eq-ok (signing_key_id key.public_key) _ h3 in
      let (e, h5) = reject-eq-ok (not (d == id)) _ _ h4 in
      (
        record {
          derived = ground (arith, bytes_beq_iff d id);
          algorithm_known =
              ground
                (arith, bytes_beq_iff (trim_space key.algorithm) signing_key_algorithm_ed25519);
          named = ground (arith, bytes_beq_iff id []);
          window = ground arith;
        },
        b,
      )

  validate_keys-IsSound :
      (active : Bytes) (seen : List Bytes) (found : Bool) {r : Bool} (keys : List SigningTrustKey)
      (key : SigningTrustKey)
      → validate_keys active seen found keys ≡ ok r
      → Memᴰ key keys
      → IsSound key × (contains (trim_space key.key_id) seen ≡ false)
  unfolding validate_keys contains
  validate_keys-IsSound active seen found [] key h m = elim m [ ]
  validate_keys-IsSound active seen found (k ∷ keys) key h (Memᴰ.head e) =
      rw e (validate_key-IsSound seen k (>>-eq-ok (validate_key seen k) _ h).0)
  validate_keys-IsSound active seen found (k ∷ keys) key h (Memᴰ.tail m) =
      let (s, n) =
        validate_keys-IsSound active (trim_space k.key_id ∷ seen)
          (found || trim_space k.key_id == trim_space active) keys key
          (>>-eq-ok (validate_key seen k) _ h).1 m in
      (s, ground arith)

  validate_keys-apart :
      (active : Bytes) (seen : List Bytes) (found : Bool) {r : Bool} (keys : List SigningTrustKey)
      (k key : SigningTrustKey)
      → validate_keys active (trim_space k.key_id ∷ seen) found keys ≡ ok r
      → Memᴰ key keys
      → (trim_space key.key_id == trim_space k.key_id) ≡ false
  unfolding contains
  validate_keys-apart active seen found keys k key h m =
      let (_, n) = validate_keys-IsSound active _ found keys key h m in ground arith

  find_key-found :
      (id : Bytes) (at : Time) (keys : List SigningTrustKey) (key : SigningTrustKey)
      → find_key id at keys ≡ ok key
      → Memᴰ key keys × (key.key_id ≡ id) × IsWithin key.not_before key.not_after at
  unfolding find_key
  find_key-found id at [] key h = cc
  find_key-found id at (k ∷ keys) key h = elim (Bool-cases (k.key_id == id)) [
    | inl e ↦
        let p : k ≡ key = ground arith in
        (
          Memᴰ.head (sym p),
          rw (← p) (eq_of_beq k.key_id id e),
          rw (← p) (ground arith, ground arith),
        )
    | inr e ↦ let (m, q, w) = find_key-found id at keys key (ground arith) in (Memᴰ.tail m, q, w)
  ]

  trims_alike : (a b : Bytes) → a ≡ b → (trim_space b == trim_space a) ≡ true
  trims_alike a b e = rw e (beq_refl (trim_space b))

  find_key_of_listed :
      (active id : Bytes) (at : Time) (seen : List Bytes) (found : Bool) {r : Bool}
      (keys : List SigningTrustKey) (key : SigningTrustKey)
      → validate_keys active seen found keys ≡ ok r
      → Memᴰ key keys
      → key.key_id ≡ id
      → IsWithin key.not_before key.not_after at
      → find_key id at keys ≡ ok key
  unfolding find_key validate_keys
  find_key_of_listed active id at seen found [] key h m e w = elim m [ ]
  find_key_of_listed active id at seen found (k ∷ keys) key h (Memᴰ.head p) e w =
      rw (← p) (ground (arith, bytes_beq_iff key.key_id id))
  find_key_of_listed active id at seen found (k ∷ keys) key h (Memᴰ.tail m) e w =
      let h1 = (>>-eq-ok (validate_key seen k) _ h).1 in
      let apart =
        validate_keys-apart active seen (found || trim_space k.key_id == trim_space active) keys k
          key h1 m in
      ground (
        arith,
        apart,
        eq_of_beq k.key_id id,
        ap trim_space e,
        beq_refl (trim_space key.key_id),
        find_key_of_listed active id at (trim_space k.key_id ∷ seen)
            (found || trim_space k.key_id == trim_space active) keys key h1 m e w,
        trims_alike k.key_id key.key_id,
      )

  keys_checked :
      (b : SigningTrustBundle)
      → validate b ≡ ok tt
      → (found : Bool) × (validate_keys b.active_key_id [] false b.keys ≡ ok found)
  unfolding validate
  keys_checked b h =
      let (_, h1) = reject-eq-ok (not (b.version == signing_trust_bundle_version)) _ _ h in
      let (_, h2) = reject-eq-ok (trim_space b.active_key_id == []) _ _ h1 in
      let (_, h3) = reject-eq-ok (length b.keys == 0) _ _ h2 in
      let (found, k, _) = >>=-eq-ok (validate_keys b.active_key_id [] false b.keys) _ h3 in
      (found, k)

  -- A key that resolves is listed in the bundle under the trimmed ID, that ID is the one derived
  -- from its public key, its algorithm is Ed25519, and `at` lies in its validity window.
  pub resolve-IsSound :
      (b : SigningTrustBundle) (key_id : Bytes) (at : Time) (key : SigningTrustKey)
      → resolve b key_id at ≡ ok key
      → Memᴰ key b.keys
        × (key.key_id ≡ trim_space key_id)
        × IsSound key
        × IsWithin key.not_before key.not_after at
  unfolding resolve
  resolve-IsSound b key_id at key h =
      let (v, h1) = >>-eq-ok (validate b) _ h in
      let (n, h2) = reject-eq-ok (trim_space key_id == []) _ _ h1 in
      let (m, e, w) = find_key-found (trim_space key_id) at b.keys key h2 in
      let (found, k) = keys_checked b v in
      (m, e, (validate_keys-IsSound b.active_key_id [] false b.keys key k m).0, w)

  -- In a valid bundle every listed key resolves under its ID while it is in its validity window, if
  -- the ID has no white space around it.
  pub resolve_complete :
      (b : SigningTrustBundle) (at : Time) (key : SigningTrustKey)
      → validate b ≡ ok tt
      → Memᴰ key b.keys
      → trim_space key.key_id ≡ key.key_id
      → IsWithin key.not_before key.not_after at
      → resolve b key.key_id at ≡ ok key
  unfolding resolve
  resolve_complete b at key v m e w =
      let (found, k) = keys_checked b v in
      let (sound, _) = validate_keys-IsSound b.active_key_id [] false b.keys key k m in
      ground (
        arith,
        bytes_beq_iff (trim_space key.key_id) [],
        sound.named,
        find_key_of_listed b.active_key_id (trim_space key.key_id) at [] false b.keys key k m
            (sym e) w,
      )
