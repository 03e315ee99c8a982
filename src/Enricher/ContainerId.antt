-- ===== src/Enricher/ContainerId.antt =====
-- `sanitizeContainerID`: the runtime's prefix goes, and twelve characters stay.
use koprobe.Prelude.{
  ℕ, ◌≡◌, ◌≤◌, refl, Bool, true, ◌&&◌, ◌||◌, Text, codes, leb, length, take, drop, All, [], ◌∷◌,
  ◌++◌, arith, length-take-le, foldl, take_of_length-le,
}
use koprobe.Enricher.{shorten, runtimes, has_prefix, trim_prefix, sanitize_container_id}

-- Container identifiers are lower-case hexadecimal.
abbrev pub is_hex : ℕ → Bool
is_hex c = (leb b'0' c && leb c b'9') || (leb b'a' c && leb c b'f')

abbrev pub IsHex : Text → Type 0
IsHex = All (λ c. is_hex c ≡ true)

length-shorten-le : (id : Text) → length (shorten id) ≤ 12
unfolding shorten
length-shorten-le id = ground (arith, length-take-le 12 id)

shorten_lem : (id : Text) → shorten id ≡ take 12 id
unfolding shorten
shorten_lem id = ground (arith, take_of_length-le 12 id)

-- At most twelve characters are left, whatever the identifier.
pub length-sanitize_container_id-le : (id : Text) → length (sanitize_container_id id) ≤ 12
unfolding sanitize_container_id
length-sanitize_container_id-le id = length-shorten-le (foldl trim_prefix id runtimes)

has_prefix-append : (p id : Text) → has_prefix (p ++ id) p ≡ true
unfolding has_prefix
has_prefix-append [] [] = refl
has_prefix-append [] (c ∷ id) = refl
has_prefix-append (c ∷ p) id = ground (arith, has_prefix-append p id)

drop-append : (p id : Text) → drop (length p) (p ++ id) ≡ id
drop-append [] id = refl
drop-append (c ∷ p) id = drop-append p id

trim_prefix-append : (p id : Text) → trim_prefix (p ++ id) p ≡ id
unfolding trim_prefix
trim_prefix-append p id = rw (has_prefix-append p id) (drop-append p id)

-- no runtime's name begins with two hexadecimal digits
trim_docker : (id : Text) → IsHex id → trim_prefix id (codes "docker://") ≡ id
unfolding trim_prefix
trim_docker [] h = refl
trim_docker (c ∷ []) h = ground arith
trim_docker (c ∷ b ∷ id) h = ground arith

trim_containerd : (id : Text) → IsHex id → trim_prefix id (codes "containerd://") ≡ id
unfolding trim_prefix
trim_containerd [] h = refl
trim_containerd (c ∷ []) h = ground arith
trim_containerd (c ∷ b ∷ id) h = ground arith

trim_crio : (id : Text) → IsHex id → trim_prefix id (codes "cri-o://") ≡ id
unfolding trim_prefix
trim_crio [] h = refl
trim_crio (c ∷ []) h = ground arith
trim_crio (c ∷ b ∷ id) h = ground arith

-- one runtime's prefix is not another's
keep_containerd :
    (id : Text)
    → trim_prefix (codes "containerd://" ++ id) (codes "docker://") ≡ codes "containerd://" ++ id
unfolding trim_prefix has_prefix
keep_containerd id = refl

keep_crio :
    (id : Text)
    → trim_prefix (trim_prefix (codes "cri-o://" ++ id) (codes "docker://")) (codes "containerd://")
      ≡ codes "cri-o://" ++ id
unfolding trim_prefix has_prefix
keep_crio id = refl

-- A hexadecimal identifier, bare or behind the prefix of any of the three runtimes, is cut to its
-- first twelve characters.
pub sanitize_container_id-eq-take :
    (id : Text)
    → IsHex id
    → (sanitize_container_id id ≡ take 12 id)
      × (sanitize_container_id (codes "docker://" ++ id) ≡ take 12 id)
      × (sanitize_container_id (codes "containerd://" ++ id) ≡ take 12 id)
      × (sanitize_container_id (codes "cri-o://" ++ id) ≡ take 12 id)
unfolding sanitize_container_id
sanitize_container_id-eq-take id h = (
  rw (trim_docker id h, trim_containerd id h, trim_crio id h) (shorten_lem id),
  rw (trim_prefix-append (codes "docker://") id, trim_containerd id h, trim_crio id h)
      (shorten_lem id),
  rw (keep_containerd id, trim_prefix-append (codes "containerd://") id, trim_crio id h)
      (shorten_lem id),
  rw (keep_crio id, trim_prefix-append (codes "cri-o://") id) (shorten_lem id),
)
