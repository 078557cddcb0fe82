-- ===== src/Platform.antt =====
-- Sources/ShareComputeCore/PlatformKind.swift.
use share_compute.Prelude.{ℕ, String, Bool, true, false, List, [], ◌∷◌, ◌≡◌, ◌↔◌, Eq, ltb, arith}

pub data PlatformKind : Type 0 where
  windows macos ios android : PlatformKind

-- `rawValue`.
unfoldable pub raw_value : PlatformKind → String
raw_value windows = "windows"
raw_value macos = "macos"
raw_value ios = "ios"
raw_value android = "android"

-- `displayName`.
unfoldable pub display_name : PlatformKind → String
display_name windows = "Windows"
display_name macos = "macOS"
display_name ios = "iOS"
display_name android = "Android"

-- `allCases`, which is also `allRequired`.
abbrev pub all_required : List PlatformKind
all_required = windows ∷ macos ∷ ios ∷ android ∷ []

abbrev pub platform_beq : PlatformKind → PlatformKind → Bool
platform_beq windows windows = true
platform_beq macos macos = true
platform_beq ios ios = true
platform_beq android android = true
platform_beq _ _ = false

pub platform_beq_iff : (a b : PlatformKind) → (platform_beq a b ≡ true) ↔ (a ≡ b)
platform_beq_iff a b = ((λ h. ground arith), (λ h. ground arith))

instance abbrev pub platform_eq : Eq PlatformKind
platform_eq = record { beq = platform_beq; beq_iff = platform_beq_iff }

-- The place in the order of the raw values: "android" < "ios" < "macos" < "windows".
place : PlatformKind → ℕ
place android = 0
place ios = 1
place macos = 2
place windows = 3

unfoldable pub platform_lt : PlatformKind → PlatformKind → Bool
unfolding place
platform_lt a b = ltb (place a) (place b)
