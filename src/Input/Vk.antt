-- ===== src/Input/Vk.antt =====
-- The Windows virtual-key codes that the program names (documented constants of winuser.h).
use infinity_clicker.Base.{ℕ}

abbrev pub return : ℕ
return = 0x0D

abbrev pub shift : ℕ
shift = 0x10

abbrev pub control : ℕ
control = 0x11

abbrev pub menu : ℕ
menu = 0x12

abbrev pub lwin : ℕ
lwin = 0x5B

abbrev pub rwin : ℕ
rwin = 0x5C

abbrev pub numpad0 : ℕ
numpad0 = 0x60

abbrev pub numpad9 : ℕ
numpad9 = 0x69

abbrev pub decimal : ℕ
decimal = 0x6E

abbrev pub lshift : ℕ
lshift = 0xA0

abbrev pub rshift : ℕ
rshift = 0xA1

abbrev pub lcontrol : ℕ
lcontrol = 0xA2

abbrev pub rcontrol : ℕ
rcontrol = 0xA3

abbrev pub lmenu : ℕ
lmenu = 0xA4

abbrev pub rmenu : ℕ
rmenu = 0xA5
