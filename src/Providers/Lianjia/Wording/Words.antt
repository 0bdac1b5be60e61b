-- ===== src/Providers/Lianjia/Wording/Words.antt =====
-- What the wording of floors and statuses decides: a value is read when words of it alone occur.
use cn_property_agent.Prelude.{
  ◌≡◌, ◌≢◌, refl, ◌↔◌, ◌⊎◌, inl, inr, String, true, false, List, [], ◌∷◌, arith, Bool-cases,
}
use cn_property_agent.Prelude.Occurrence.{Occurs, has_text_iff}
use cn_property_agent.Domain.Common.{FloorBucket, ListingStatus}
use cn_property_agent.Providers.Lianjia.Wording.{any_in, parse_floor_bucket, parse_listing_status}

-- The text has one of the words.
abbrev pub Says : List String → String → Type 0
Says [] text = ⊥
Says (word ∷ words) text = Occurs word text ⊎ Says words text

any_in_iff : (words : List String) (text : String) → (any_in words text ≡ true) ↔ Says words text
any_in_iff [] text = ground arith
any_in_iff (word ∷ words) text = ground (arith, has_text_iff word text, any_in_iff words text)

-- The words of a value, and of no other, occur.
abbrev pub SaysOnly : {V : Type 0} → (V → List String) → String → V → Type 0
SaysOnly words text v =
    Says (words v) text × ((other : _) → other ≢ v → Says (words other) text → ⊥)

abbrev pub floor_words : FloorBucket → List String
floor_words FloorBucket.low = "低楼层" ∷ "低区" ∷ []
floor_words FloorBucket.mid = "中楼层" ∷ "中区" ∷ []
floor_words FloorBucket.high = "高楼层" ∷ "高区" ∷ []
floor_words FloorBucket.unknown = []

abbrev TestsOnly : {V : Type 0} → (V → List String) → String → V → Type 0
TestsOnly words text v =
    (any_in (words v) text ≡ true) × ((other : _) → other ≢ v → any_in (words other) text ≡ false)

not_said : (words : List String) (text : String) → (Says words text → ⊥) → any_in words text ≡ false
not_said words text h = elim (Bool-cases (any_in words text)) [
  | inl e ↦ absurd (h ((any_in_iff words text).0 e))
  | inr e ↦ e
]

module _ {V : Type 0} (words : V → List String) (text : String) (v : V) where
  says :
      any_in (words v) text ≡ true
      → ((other : V) → other ≢ v → any_in (words other) text ≡ false)
      → SaysOnly words text v
  says h alone = (
    (any_in_iff (words v) text).0 h,
    λ other d said. ground (arith, alone other d, (any_in_iff (words other) text).1 said),
  )

  tests : SaysOnly words text v → TestsOnly words text v
  tests (said, alone) =
      ((any_in_iff (words v) text).1 said, λ other d. not_said (words other) text (alone other d))

floor_alone :
    (text : String) (value other : FloorBucket)
    → value ≢ FloorBucket.unknown
    → parse_floor_bucket text ≡ value
    → other ≢ value
    → any_in (floor_words other) text ≡ false
unfolding parse_floor_bucket
floor_alone text value FloorBucket.unknown known h d = refl
floor_alone text value FloorBucket.low known h d = ground (arith, h, d, known)
floor_alone text value FloorBucket.mid known h d = ground (arith, h, d, known)
floor_alone text value FloorBucket.high known h d = ground (arith, h, d, known)

floor_found :
    (text : String) (value : FloorBucket)
    → value ≢ FloorBucket.unknown
    → parse_floor_bucket text ≡ value
    → any_in (floor_words value) text ≡ true
unfolding parse_floor_bucket
floor_found text FloorBucket.unknown known h = absurd (known refl)
floor_found text FloorBucket.low known h = ground (arith, h)
floor_found text FloorBucket.mid known h = ground (arith, h)
floor_found text FloorBucket.high known h = ground (arith, h)

floor_chosen :
    (text : String) (value : FloorBucket)
    → value ≢ FloorBucket.unknown
    → TestsOnly floor_words text value
    → parse_floor_bucket text ≡ value
unfolding parse_floor_bucket
floor_chosen text FloorBucket.unknown known h = absurd (known refl)
floor_chosen text FloorBucket.low known (h, alone) =
    ground (arith, h, alone FloorBucket.mid (λ e. cc), alone FloorBucket.high (λ e. cc))
floor_chosen text FloorBucket.mid known (h, alone) =
    ground (arith, h, alone FloorBucket.low (λ e. cc), alone FloorBucket.high (λ e. cc))
floor_chosen text FloorBucket.high known (h, alone) =
    ground (arith, h, alone FloorBucket.low (λ e. cc), alone FloorBucket.mid (λ e. cc))

-- A floor text is read as a bucket other than `unknown` when, and only when, one of that bucket's
-- words occurs in it and no word of another bucket does.
pub parse_floor_bucket_iff :
    (text : String) (value : FloorBucket)
    → value ≢ FloorBucket.unknown
    → (parse_floor_bucket text ≡ value) ↔ SaysOnly floor_words text value
parse_floor_bucket_iff text value known = (
  λ h.
      says floor_words text value (floor_found text value known h)
        (λ other d. floor_alone text value other known h d),
  λ said. floor_chosen text value known (tests floor_words text value said),
)

abbrev pub status_words : ListingStatus → List String
status_words ListingStatus.active = "在售" ∷ "出售中" ∷ "挂牌中" ∷ []
status_words ListingStatus.sold = "已成交" ∷ "成交" ∷ "已售" ∷ "售出" ∷ []
status_words ListingStatus.withdrawn = "已下架" ∷ "下架" ∷ "已撤牌" ∷ "撤牌" ∷ "已撤单" ∷ []
status_words ListingStatus.off_market = "已停售" ∷ "停售" ∷ "暂不可售" ∷ "暂停出售" ∷ []
status_words ListingStatus.unknown = []

status_alone :
    (text : String) (value other : ListingStatus)
    → value ≢ ListingStatus.unknown
    → parse_listing_status text ≡ value
    → other ≢ value
    → any_in (status_words other) text ≡ false
unfolding parse_listing_status
status_alone text value ListingStatus.unknown known h d = refl
status_alone text value ListingStatus.active known h d = ground (arith, h, d, known)
status_alone text value ListingStatus.sold known h d = ground (arith, h, d, known)
status_alone text value ListingStatus.withdrawn known h d = ground (arith, h, d, known)
status_alone text value ListingStatus.off_market known h d = ground (arith, h, d, known)

status_found :
    (text : String) (value : ListingStatus)
    → value ≢ ListingStatus.unknown
    → parse_listing_status text ≡ value
    → any_in (status_words value) text ≡ true
unfolding parse_listing_status
status_found text ListingStatus.unknown known h = absurd (known refl)
status_found text ListingStatus.active known h = ground (arith, h)
status_found text ListingStatus.sold known h = ground (arith, h)
status_found text ListingStatus.withdrawn known h = ground (arith, h)
status_found text ListingStatus.off_market known h = ground (arith, h)

status_chosen :
    (text : String) (value : ListingStatus)
    → value ≢ ListingStatus.unknown
    → TestsOnly status_words text value
    → parse_listing_status text ≡ value
unfolding parse_listing_status
status_chosen text ListingStatus.unknown known h = absurd (known refl)
status_chosen text ListingStatus.active known (h, alone) = ground (
  arith,
  h,
  alone ListingStatus.sold (λ e. cc),
  alone ListingStatus.withdrawn (λ e. cc),
  alone ListingStatus.off_market (λ e. cc),
)
status_chosen text ListingStatus.sold known (h, alone) = ground (
  arith,
  h,
  alone ListingStatus.active (λ e. cc),
  alone ListingStatus.withdrawn (λ e. cc),
  alone ListingStatus.off_market (λ e. cc),
)
status_chosen text ListingStatus.withdrawn known (h, alone) = ground (
  arith,
  h,
  alone ListingStatus.active (λ e. cc),
  alone ListingStatus.sold (λ e. cc),
  alone ListingStatus.off_market (λ e. cc),
)
status_chosen text ListingStatus.off_market known (h, alone) = ground (
  arith,
  h,
  alone ListingStatus.active (λ e. cc),
  alone ListingStatus.sold (λ e. cc),
  alone ListingStatus.withdrawn (λ e. cc),
)

-- A status text is read as a status other than `unknown` when, and only when, one of that status's
-- words occurs in it and no word of another status does.
pub parse_listing_status_iff :
    (text : String) (value : ListingStatus)
    → value ≢ ListingStatus.unknown
    → (parse_listing_status text ≡ value) ↔ SaysOnly status_words text value
parse_listing_status_iff text value known = (
  λ h.
      says status_words text value (status_found text value known h)
        (λ other d. status_alone text value other known h d),
  λ said. status_chosen text value known (tests status_words text value said),
)
