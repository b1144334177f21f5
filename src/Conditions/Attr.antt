-- ===== src/Conditions/Attr.antt =====
-- `ConditionAttr_t` of condition.h: the byte before each value of a saved condition.
use projeto_bruxo.Base.{ℕ}

abbrev pub type : ℕ
type = 1

abbrev pub id : ℕ
id = 2

abbrev pub ticks : ℕ
ticks = 3

abbrev pub health_ticks : ℕ
health_ticks = 4

abbrev pub health_gain : ℕ
health_gain = 5

abbrev pub mana_ticks : ℕ
mana_ticks = 6

abbrev pub mana_gain : ℕ
mana_gain = 7

abbrev pub delayed : ℕ
delayed = 8

abbrev pub owner : ℕ
owner = 9

abbrev pub interval_data : ℕ
interval_data = 10

abbrev pub speed_delta : ℕ
speed_delta = 11

abbrev pub formula_mina : ℕ
formula_mina = 12

abbrev pub formula_minb : ℕ
formula_minb = 13

abbrev pub formula_maxa : ℕ
formula_maxa = 14

abbrev pub formula_maxb : ℕ
formula_maxb = 15

abbrev pub light_color : ℕ
light_color = 16

abbrev pub light_level : ℕ
light_level = 17

abbrev pub light_ticks : ℕ
light_ticks = 18

abbrev pub light_interval : ℕ
light_interval = 19

abbrev pub soul_ticks : ℕ
soul_ticks = 20

abbrev pub soul_gain : ℕ
soul_gain = 21

abbrev pub skills : ℕ
skills = 22

abbrev pub stats : ℕ
stats = 23

abbrev pub outfit : ℕ
outfit = 24

abbrev pub period_damage : ℕ
period_damage = 25

abbrev pub is_buff : ℕ
is_buff = 26

abbrev pub sub_id : ℕ
sub_id = 27

abbrev pub is_aggressive : ℕ
is_aggressive = 28

abbrev pub disable_defense : ℕ
disable_defense = 29

abbrev pub special_skills : ℕ
special_skills = 30

abbrev pub experience_rate : ℕ
experience_rate = 31

abbrev pub health_gain_percent : ℕ
health_gain_percent = 32

abbrev pub mana_gain_percent : ℕ
mana_gain_percent = 33

abbrev pub constant : ℕ
constant = 34

abbrev pub end_time : ℕ
end_time = 35

abbrev pub end : ℕ
end = 254
