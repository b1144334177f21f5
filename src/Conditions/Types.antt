-- ===== src/Conditions/Types.antt =====
-- `ConditionType_t` of enums.h: one bit for each type.
use projeto_bruxo.Base.{ℕ}

abbrev pub poison : ℕ
poison = 1

abbrev pub fire : ℕ
fire = 2

abbrev pub energy : ℕ
energy = 4

abbrev pub bleeding : ℕ
bleeding = 8

abbrev pub haste : ℕ
haste = 16

abbrev pub paralyze : ℕ
paralyze = 32

abbrev pub outfit : ℕ
outfit = 64

abbrev pub invisible : ℕ
invisible = 128

abbrev pub light : ℕ
light = 256

abbrev pub mana_shield : ℕ
mana_shield = 512

abbrev pub infight : ℕ
infight = 1024

abbrev pub drunk : ℕ
drunk = 2048

abbrev pub exhaust_weapon : ℕ
exhaust_weapon = 4096

abbrev pub regeneration : ℕ
regeneration = 8192

abbrev pub soul : ℕ
soul = 16384

abbrev pub drown : ℕ
drown = 32768

abbrev pub muted : ℕ
muted = 65536

abbrev pub channel_muted_ticks : ℕ
channel_muted_ticks = 131072

abbrev pub yell_ticks : ℕ
yell_ticks = 262144

abbrev pub attributes : ℕ
attributes = 524288

abbrev pub freezing : ℕ
freezing = 1048576

abbrev pub dazzled : ℕ
dazzled = 2097152

abbrev pub cursed : ℕ
cursed = 4194304

abbrev pub exhaust_combat : ℕ
exhaust_combat = 8388608

abbrev pub exhaust_heal : ℕ
exhaust_heal = 16777216

abbrev pub pacified : ℕ
pacified = 33554432

abbrev pub cliport : ℕ
cliport = 67108864
