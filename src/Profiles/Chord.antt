-- ===== src/Profiles/Chord.antt =====
-- `KeyChord::toJson` and `fromJson` of src/input/KeyChord.cpp. The name that is written for a reader
-- depends on the language and the keyboard layout and is a parameter.
use infinity_clicker.Base.{
  ℕ, ◌^◌, ◌<◌, ◌≤◌, ◌≡◌, arith, Bool, false, ◌&&◌, ◌||◌, if◌then◌else◌, ltb, leb, ◌==◌, pos, negsuc,
  to_unsigned,
}
use infinity_clicker.Json.{
  Text, codes, text_eq, NumArith, Value, bool, number, string, object, no_members, find_member,
  set_member, set, get_bool, get_int, get_string,
}
use infinity_clicker.Input.KeyChord.{
  Device, no_device, keyboard, mouse, KeyChord, is_keyboard_device, is_mouse_device,
}

-- What a `double` keeps of an integer.
pub record IsDouble (na : NumArith) : Type 0 where
  pub exact_pos : (n : ℕ) → n < 2 ^ 53 → na.to_int (na.of_int (pos n)) ≡ pos n
  pub exact_neg : (n : ℕ) → n < 2 ^ 53 → na.to_int (na.of_int (negsuc n)) ≡ negsuc n

abbrev pub device_key : Device → Text
device_key mouse = codes "mouse"
device_key keyboard = codes "keyboard"
device_key no_device = codes "none"

abbrev pub parse_device : Text → Device
parse_device d =
    if text_eq d (codes "mouse")
    then mouse
    else if text_eq d (codes "keyboard")
    then keyboard
    else no_device

-- The last two lines of `fromJson`.
unfoldable pub check_device : KeyChord → KeyChord
check_device c =
    if is_mouse_device c.device && leb 9 c.code
    then record c { device = no_device }
    else if is_keyboard_device c.device && (c.code == 0 || ltb 0xFE c.code)
    then record c { device = no_device }
    else c

-- The chord is one that its JSON holds whole.
abbrev pub KeepsDevice : Device → KeyChord → Type 0
KeepsDevice keyboard c = (0 < c.code) × (c.code ≤ 0xFE) × (c.scan < 2 ^ 16)
KeepsDevice mouse c = (c.code < 9) × (c.scan ≡ 0) × (c.extended ≡ false)
KeepsDevice no_device c = (c.code < 2 ^ 16) × (c.scan ≡ 0) × (c.extended ≡ false)

pub record IsStorable (c : KeyChord) : Type 0 where
  pub kept : KeepsDevice c.device c
  pub four_mods : c.mods < 16

module _ (na : NumArith) where
  abbrev pub natural : ℕ → Value na
  natural n = number (na.of_int (pos n))

  abbrev pub empty_object : Value na
  empty_object = object no_members

  unfoldable pub chord_to_json : (KeyChord → Text) → KeyChord → Value na
  unfolding set_member
  chord_to_json name c =
      let device = set na empty_object (codes "device") (string (device_key c.device)) in
      let coded = set na device (codes "code") (natural c.code) in
      let scanned =
        if is_keyboard_device c.device
        then set na (set na coded (codes "scan") (natural c.scan)) (codes "extended")
            (bool c.extended)
        else coded in
      set na (set na scanned (codes "mods") (natural c.mods)) (codes "name") (string (name c))

  unfoldable pub chord_from_json : Value na → KeyChord
  unfolding find_member check_device
  chord_from_json v = check_device (record {
    device = parse_device (get_string na v (codes "device") (codes "none"));
    code = to_unsigned 16 (get_int na v (codes "code") (pos 0));
    scan = to_unsigned 16 (get_int na v (codes "scan") (pos 0));
    extended = get_bool na v (codes "extended") false;
    mods = to_unsigned 4 (get_int na v (codes "mods") (pos 0));
  })

  abbrev chord : Device → ℕ → ℕ → Bool → ℕ → KeyChord
  chord d code scan ext mods = record {
    device = d;
    code = code;
    scan = scan;
    extended = ext;
    mods = mods;
  }

  made_chord :
      (name : KeyChord → Text) (d : Device) (code scan : ℕ) (ext : Bool) (mods : ℕ)
      → IsDouble na
      → KeepsDevice d (chord d code scan ext mods)
      → mods < 16
      → chord_from_json (chord_to_json name (chord d code scan ext mods))
        ≡ chord d code scan ext mods
  unfolding chord_from_json chord_to_json
  made_chord name mouse code scan ext mods laws k m =
      ground (arith, laws.exact_pos code, laws.exact_pos mods)
  made_chord name keyboard code scan ext mods laws k m =
      ground (arith, laws.exact_pos code, laws.exact_pos scan, laws.exact_pos mods)
  made_chord name no_device code scan ext mods laws k m =
      ground (arith, laws.exact_pos code, laws.exact_pos mods)

  -- A chord is read back from its JSON, if the mouse's chords and empty ones have no scan code.
  pub chord_from_json-to_json :
      (name : KeyChord → Text) (c : KeyChord)
      → IsDouble na
      → IsStorable c
      → chord_from_json (chord_to_json name c) ≡ c
  chord_from_json-to_json name c laws v =
      made_chord name c.device c.code c.scan c.extended c.mods laws v.kept v.four_mods
