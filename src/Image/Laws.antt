-- ===== src/Image/Laws.antt =====
-- The image that a version resolves to, and the tag that is read back from it.
use hyperbytedb_operator.Prelude.{
  ℕ, suc, ◌+◌, ◌<◌, ◌≤◌, ◌≡◌, ◌≢◌, refl, ap, ◌∙◌, true, false, [], ◌∷◌, ◌++◌, Option, none, some,
  leb, ◌==◌, if◌then◌else◌, Bool-cases, inl, inr, length, All, All-append, All-map, arith,
}
use hyperbytedb_operator.Image.{
  Text, is_space, trim_v, is_empty, has, default_image_tag, normalize_version_tag, join_tag, tag_of,
  resolve_component_image, last_index, drop, behind, image_tag,
}
use hyperbytedb_operator.Image.Tags.{
  IsPlain, IsVisible, trim_space-IsVisible, has-false, before_at-IsPlain, last_index-none,
  last_index-append, last_index-at, last_index-lt, has-at, last_index-past, last_index-some,
}

-- A character of a tag.
pub record IsTagChar (c : ℕ) : Type 0 where
  pub plain : IsPlain c
  pub no_slash : c ≢ b'/'

-- A character of a repository with its registry, which may have a port.
pub record IsNameChar (c : ℕ) : Type 0 where
  pub visible : is_space c ≡ false
  pub no_at : c ≢ b'@'

IsPlain-IsNameChar : (c : ℕ) → IsPlain c → IsNameChar c
IsPlain-IsNameChar c h = record { visible = h.visible; no_at = h.no_at }

abbrev IsClean : Text → Type 0
IsClean t = All IsNameChar t

IsClean-IsVisible : (t : Text) → IsClean t → All IsVisible t
IsClean-IsVisible t h = All-map IsNameChar IsVisible t (λ c k. k.visible) h

colon-IsNameChar : IsNameChar b':'
unfolding is_space
colon-IsNameChar = record { visible = refl; no_at = λ e. omega arith }

join_tag-IsClean : (repo tag : Text) → IsClean repo → IsClean tag → IsClean (join_tag repo tag)
join_tag-IsClean repo tag h k = All-append IsNameChar repo (b':' ∷ tag) h (colon-IsNameChar, k)

-- An image name without spaces and "@" is read as it is.
image_tag-IsClean :
    (t : Text) → IsClean t → image_tag t ≡ behind (last_index b':' t) (last_index b'/' t) t
unfolding image_tag
image_tag-IsClean t h =
    rw
      (
        trim_space-IsVisible t (IsClean-IsVisible t h),
        before_at-IsPlain t (All-map IsNameChar (λ c. c ≢ b'@') t (λ c k. k.no_at) h),
      )
      refl

drop-join_tag : (repo tag : Text) → drop (suc (length repo)) (join_tag repo tag) ≡ tag
drop-join_tag [] tag = refl
drop-join_tag (c ∷ cs) tag = drop-join_tag cs tag

behind-lt : (i j : ℕ) (t : Text) → j < i → behind (some i) (some j) t ≡ drop (suc i) t
behind-lt i j t h = let e : leb i j ≡ false = ground arith in rw e refl

behind-join_tag :
    (repo tag : Text) (slash : Option ℕ)
    → last_index b'/' repo ≡ slash
    → behind (some (length repo)) slash (join_tag repo tag) ≡ tag
behind-join_tag repo tag none e = drop-join_tag repo tag
behind-join_tag repo tag (some j) e =
    behind-lt (length repo) j (join_tag repo tag) (last_index-lt b'/' repo j e)
    ∙ drop-join_tag repo tag

image_tag-join_tag :
    (repo tag : Text) → IsClean repo → All IsTagChar tag → image_tag (join_tag repo tag) ≡ tag
image_tag-join_tag repo tag h k =
    let clean = All-map IsTagChar IsNameChar tag (λ c q. IsPlain-IsNameChar c q.plain) k in
    let colons =
      last_index-none b':' tag
        (All-map IsTagChar (λ c. c ≢ b':') tag (λ c q. q.plain.no_colon) k) in
    let slashes =
      last_index-none b'/' (b':' ∷ tag)
        (λ e. omega arith, All-map IsTagChar (λ c. c ≢ b'/') tag (λ c q. q.no_slash) k) in
    image_tag-IsClean (join_tag repo tag) (join_tag-IsClean repo tag h clean)
    ∙ rw (last_index-at b':' repo tag colons, last_index-append b'/' repo (b':' ∷ tag) slashes)
        (behind-join_tag repo tag (last_index b'/' repo) refl)

-- The tag that a version asks for: the version without a leading "v", and "latest" without one.
abbrev pub wanted_tag : Text → Text
wanted_tag version = if is_empty version then default_image_tag else trim_v version

pub trim_v-All : (P : ℕ → Type 0) (t : Text) → All P t → All P (trim_v t)
unfolding trim_v
trim_v-All P [] h = tt
trim_v-All P (c ∷ cs) h = elim (Bool-cases (c == b'v')) [ inl b ↦ rw b h.1 | inr b ↦ rw b h ]

tag_of-wanted : (version : Text) → All IsTagChar version → tag_of version ≡ wanted_tag version
unfolding tag_of normalize_version_tag
tag_of-wanted [] h = refl
tag_of-wanted (c ∷ cs) h =
    rw
      (trim_space-IsVisible (c ∷ cs)
        (All-map IsTagChar IsVisible (c ∷ cs) (λ d k. k.plain.visible) h))
      refl

letter-IsTagChar : (c : ℕ) → 97 ≤ c → c ≤ 122 → IsTagChar c
unfolding is_space
letter-IsTagChar c h k = record {
  plain = record { visible = ground arith; no_colon = λ e. omega arith; no_at = λ e. omega arith };
  no_slash = λ e. omega arith;
}

latest-IsTag : All IsTagChar default_image_tag
latest-IsTag = (
  letter-IsTagChar b'l' (omega arith) (omega arith),
  (
    letter-IsTagChar b'a' (omega arith) (omega arith),
    (
      letter-IsTagChar b't' (omega arith) (omega arith),
      (
        letter-IsTagChar b'e' (omega arith) (omega arith),
        (
          letter-IsTagChar b's' (omega arith) (omega arith),
          (letter-IsTagChar b't' (omega arith) (omega arith), tt),
        ),
      ),
    ),
  ),
)

wanted_tag-IsTag : (version : Text) → All IsTagChar version → All IsTagChar (wanted_tag version)
wanted_tag-IsTag [] h = latest-IsTag
wanted_tag-IsTag (c ∷ cs) h = trim_v-All IsTagChar (c ∷ cs) h

IsPlain-IsClean : (t : Text) → All IsPlain t → IsClean t
IsPlain-IsClean t h = All-map IsPlain IsNameChar t IsPlain-IsNameChar h

resolve-join_tag :
    (image version repo : Text)
    → All IsPlain image
    → resolve_component_image image version repo
      ≡ join_tag (if is_empty image then repo else image) (tag_of version)
unfolding resolve_component_image
resolve-join_tag [] version repo h = refl
resolve-join_tag (c ∷ cs) version repo h =
    rw
      (
        trim_space-IsVisible (c ∷ cs) (IsClean-IsVisible (c ∷ cs) (IsPlain-IsClean (c ∷ cs) h)),
        has-false b':' (c ∷ cs) (All-map IsPlain (λ d. d ≢ b':') (c ∷ cs) (λ d k. k.no_colon) h),
      )
      refl

-- For an image and a default repository without space, colon and "@" (there may be no image), and a
-- version without space, colon, "@" and "/" (there may be none), the tag that is read back from the
-- resolved image is the version without its leading "v", or "latest" if there is no version.
pub image_tag-resolve_component_image :
    (image version repo : Text)
    → All IsPlain image
    → All IsPlain repo
    → All IsTagChar version
    → image_tag (resolve_component_image image version repo) ≡ wanted_tag version
image_tag-resolve_component_image image version repo hi hr hv =
    rw (resolve-join_tag image version repo hi, tag_of-wanted version hv) (go image hi)
  where
    go :
        (i : Text)
        → All IsPlain i
        → image_tag (join_tag (if is_empty i then repo else i) (wanted_tag version))
          ≡ wanted_tag version
    go [] h =
        image_tag-join_tag repo (wanted_tag version) (IsPlain-IsClean repo hr)
          (wanted_tag-IsTag version hv)
    go (c ∷ cs) h =
        image_tag-join_tag (c ∷ cs) (wanted_tag version) (IsPlain-IsClean (c ∷ cs) h)
          (wanted_tag-IsTag version hv)

resolve-colon :
    (image version repo : Text)
    → IsClean image
    → has b':' image ≡ true
    → resolve_component_image image version repo ≡ image
unfolding resolve_component_image has
resolve-colon [] version repo h k = cc
resolve-colon (c ∷ cs) version repo h k =
    rw (trim_space-IsVisible (c ∷ cs) (IsClean-IsVisible (c ∷ cs) h), k) refl

-- `host:port/path`
abbrev pub with_port : (host port path : Text) → Text
with_port host port path = host ++ (b':' ∷ (port ++ (b'/' ∷ path)))

slash-IsNameChar : IsNameChar b'/'
unfolding is_space
slash-IsNameChar = record { visible = refl; no_at = λ e. omega arith }

behind-le : (i j : ℕ) (t : Text) → i ≤ j → behind (some i) (some j) t ≡ []
behind-le i j t h = let e : leb i j ≡ true = ground arith in rw e refl

module _ (host port path : Text) (hh : All IsPlain host) (hp : All IsTagChar port)
    (ht : All IsPlain path) where
  with_port-IsClean : IsClean (with_port host port path)
  with_port-IsClean =
      All-append IsNameChar host (b':' ∷ (port ++ (b'/' ∷ path))) (IsPlain-IsClean host hh) (
        colon-IsNameChar,
        All-append IsNameChar port (b'/' ∷ path)
            (All-map IsTagChar IsNameChar port (λ c q. IsPlain-IsNameChar c q.plain) hp)
            (slash-IsNameChar, IsPlain-IsClean path ht),
      )

  image_tag-with_port : image_tag (with_port host port path) ≡ []
  image_tag-with_port =
      let colons = last_index-none b':' (port ++ (b'/' ∷ path)) (
        All-append (λ c. c ≢ b':') port (b'/' ∷ path)
          (All-map IsTagChar (λ c. c ≢ b':') port (λ c q. q.plain.no_colon) hp)
          (λ e. omega arith, All-map IsPlain (λ c. c ≢ b':') path (λ c q. q.no_colon) ht)) in
      let (k, e) = last_index-some b'/' (b':' ∷ port) path in
      let slashes = last_index-past b'/' host (b':' ∷ (port ++ (b'/' ∷ path))) k e in
      image_tag-IsClean (with_port host port path) with_port-IsClean
      ∙ rw (last_index-at b':' host (port ++ (b'/' ∷ path)) colons, slashes)
          (behind-le (length host) (length host + k) (with_port host port path) (omega arith))

  -- An image in a registry with a port, and without a tag, is used as it is, whatever the version:
  -- its tag is empty, so that neither the version of the spec nor "latest" is in it.
  pub resolve_component_image-port :
      (version repo : Text)
      → (resolve_component_image (with_port host port path) version repo ≡ with_port host port path)
        × (image_tag (resolve_component_image (with_port host port path) version repo) ≡ [])
  resolve_component_image-port version repo =
      let e =
        resolve-colon (with_port host port path) version repo with_port-IsClean
          (has-at b':' host (port ++ (b'/' ∷ path))) in
      (e, ap image_tag e ∙ image_tag-with_port)
