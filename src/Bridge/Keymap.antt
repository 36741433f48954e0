-- ===== src/Bridge/Keymap.antt =====
-- src/atvr4samsung/bridge/keymap.py: Companion button codes to Samsung keys.
use Prim.Native.String.{String}
use atvr4samsung.Common.{
  ℕ, Bool, true, false, List, [], ◌∷◌, Option, none, some, ◌==◌, if◌then◌else◌,
}

pub data AppleButton : Type 0 where
  up down left right menu select home volume_up volume_down siri screensaver sleep : AppleButton
  wake play_pause channel_increment channel_decrement guide mute power : AppleButton

abbrev pub wire_code : AppleButton → ℕ
wire_code up = 1
wire_code down = 2
wire_code left = 3
wire_code right = 4
wire_code menu = 5
wire_code select = 6
wire_code home = 7
wire_code volume_up = 8
wire_code volume_down = 9
wire_code siri = 10
wire_code screensaver = 11
wire_code sleep = 12
wire_code wake = 13
wire_code play_pause = 14
wire_code channel_increment = 15
wire_code channel_decrement = 16
wire_code guide = 17
wire_code mute = 18
wire_code power = 19

-- The members of the enum in the order of the class.
abbrev pub members : List AppleButton
members =
    up ∷ down ∷ left ∷ right ∷ menu ∷ select ∷ home ∷ volume_up ∷ volume_down ∷ siri ∷ screensaver
    ∷ sleep ∷ wake ∷ play_pause ∷ channel_increment ∷ channel_decrement ∷ guide ∷ mute ∷ power ∷ []

pub data Action : Type 0 where
  send_key send_text power_off wake_on_lan unmapped : Action

pub record Mapping : Type 0 where
  pub action : Action
  pub samsung_key : Option String
  pub mvp : Bool
  pub note : String

abbrev pub mapped : Action → Option String → Bool → String → Mapping
mapped action samsung_key mvp note = record {
  action = action;
  samsung_key = samsung_key;
  mvp = mvp;
  note = note;
}

-- `KEYMAP.get(button)`; the dict has an entry for each button of the enum as it stands.
unfoldable pub keymap : AppleButton → Option Mapping
keymap up = some (mapped send_key (some "KEY_UP") true "")
keymap down = some (mapped send_key (some "KEY_DOWN") true "")
keymap left = some (mapped send_key (some "KEY_LEFT") true "")
keymap right = some (mapped send_key (some "KEY_RIGHT") true "")
keymap menu = some (mapped send_key (some "KEY_RETURN") true "Menu = Back")
keymap select = some (mapped send_key (some "KEY_ENTER") true "")
keymap home = some (mapped send_key (some "KEY_HOME") true "")
keymap volume_up = some (mapped send_key (some "KEY_VOLUP") true "")
keymap volume_down = some (mapped send_key (some "KEY_VOLDOWN") true "")
keymap mute = some (mapped send_key (some "KEY_MUTE") true "iOS 26 CC Mute")
keymap play_pause = some (
    mapped send_key (some "KEY_PLAY_BACK") true
      "single play/pause toggle (confirmed on Frame); supersedes the old toggle model")
keymap power = some (mapped send_key (some "KEY_POWER") true "iOS 26 CC Power")
keymap sleep = some (mapped power_off (some "KEY_POWER") true "")
keymap wake = some (mapped wake_on_lan none true "")
keymap channel_increment = some (mapped send_key (some "KEY_CHUP") false "stretch")
keymap channel_decrement = some (mapped send_key (some "KEY_CHDOWN") false "stretch")
keymap guide = some (mapped send_key (some "KEY_GUIDE") false "stretch")
keymap siri = some (mapped unmapped none false "no Samsung equivalent")
keymap screensaver = some (mapped unmapped none false "")

abbrev pub unknown : Mapping
unknown = mapped unmapped none false "unknown HID code"

-- `AppleButton(hid_code)`: the member with that value, and none where Python raises ValueError.
unfoldable pub find_button : ℕ → List AppleButton → Option AppleButton
find_button hid_code [] = none
find_button hid_code (button ∷ buttons) =
    if wire_code button == hid_code then some button else find_button hid_code buttons

-- `KEYMAP.get(button, _UNKNOWN)`
abbrev pub or_unknown : Option Mapping → Mapping
or_unknown none = unknown
or_unknown (some mapping) = mapping

unfoldable pub resolve : ℕ → Mapping
unfolding find_button keymap
resolve hid_code = elim (find_button hid_code members) [
  | none ↦ unknown
  | some button ↦ or_unknown (keymap button)
]

-- What a gesture resolves to; the source names these by the texts "UP", "DOWN" and so on.
pub data Direction : Type 0 where
  swipe_up swipe_down swipe_left swipe_right tap : Direction

unfoldable pub gesture_to_samsung : Direction → String
gesture_to_samsung swipe_up = "KEY_UP"
gesture_to_samsung swipe_down = "KEY_DOWN"
gesture_to_samsung swipe_left = "KEY_LEFT"
gesture_to_samsung swipe_right = "KEY_RIGHT"
gesture_to_samsung tap = "KEY_ENTER"
