-- ===== src/Models/LogOperate.antt =====
-- ttlock_ble/constants/log_operate.py: the record types of the operation log.
pub mod Names
use ttlock_ble.Base.{
  ℕ, ◌≡◌, ◌⊎◌, inl, inr, Bool, true, false, Option-cases, ==_iff, refl, ap, ◌∙◌, arith, List, [],
  ◌∷◌, Option, none, some, ◌==◌, if◌then◌else◌,
}

pub data LogOperate : Type 0 where
  mobile_unlock server_unlock keyboard_password_unlock keyboard_modify_password : LogOperate
  keyboard_remove_single_password error_password_unlock keyboard_remove_all_passwords : LogOperate
  keyboard_password_kicked use_delete_code passcode_expired space_insufficient : LogOperate
  passcode_in_black_list door_reboot add_ic clear_ic_succeed ic_unlock_succeed : LogOperate
  delete_ic_succeed bong_unlock fr_unlock_succeed add_fr fr_unlock_failed delete_fr_succeed :
      LogOperate
  clear_fr_succeed ic_unlock_failed operate_ble_lock operate_key_unlock gateway_unlock : LogOperate
  illegal_unlock door_sensor_lock door_sensor_unlock door_go_out fr_lock passcode_lock ic_lock :
      LogOperate
  operate_key_lock remote_control_key passcode_unlock_failed_lock_reverse : LogOperate
  ic_unlock_failed_lock_reverse fr_unlock_failed_lock_reverse app_unlock_failed_lock_reverse :
      LogOperate
  high_temperature_unlock ic_unlock_failed_blacklist app_dead_lock wireless_key_fob : LogOperate
  wireless_key_pad qr_code_unlock_success qr_code_unlock_failed qr_code_lock_success : LogOperate
  qr_code_unlock_failed_lock_reverse door_not_close_alarm face_3d_unlock_success : LogOperate
  face_3d_unlock_failed_lock_reverse face_3d_lock face_3d_add_success : LogOperate
  face_3d_unlock_failed_invalid_time face_3d_delete_success face_3d_clear_success : LogOperate
  cpu_card_unlock_failed app_auth_key_unlock_success gateway_auth_key_unlock_success : LogOperate
  double_check_key_unlock double_check_passcode_unlock double_check_finger_print_unlock : LogOperate
  double_check_card_unlock double_check_face_unlock double_check_key_fob_unlock : LogOperate
  double_check_palm_vein_unlock palm_vein_unlock_success palm_vein_unlock_failed_lock_reverse :
      LogOperate
  palm_vein_lock palm_vein_add_success palm_vein_unlock_failed palm_vein_delete_success : LogOperate
  palm_vein_clear_success card_unlock_failed admin_code_unlock add_passcode_successfully :
      LogOperate
  third_device_unlock_success third_device_lock_success : LogOperate
  third_device_unlock_failed_lock_reverse third_device_unlock_failed_invalid_time : LogOperate
  double_check_third_device_verify add_third_device delete_third_device clear_third_device :
      LogOperate
  anlangjie_log low_battery_auto_unlock high_temperature_alarm fire_alarm get_nfc_lock_state :
      LogOperate

-- `int(member)`
unfoldable pub tag : LogOperate → ℕ
tag mobile_unlock = 1
tag server_unlock = 3
tag keyboard_password_unlock = 4
tag keyboard_modify_password = 5
tag keyboard_remove_single_password = 6
tag error_password_unlock = 7
tag keyboard_remove_all_passwords = 8
tag keyboard_password_kicked = 9
tag use_delete_code = 10
tag passcode_expired = 11
tag space_insufficient = 12
tag passcode_in_black_list = 13
tag door_reboot = 14
tag add_ic = 15
tag clear_ic_succeed = 16
tag ic_unlock_succeed = 17
tag delete_ic_succeed = 18
tag bong_unlock = 19
tag fr_unlock_succeed = 20
tag add_fr = 21
tag fr_unlock_failed = 22
tag delete_fr_succeed = 23
tag clear_fr_succeed = 24
tag ic_unlock_failed = 25
tag operate_ble_lock = 26
tag operate_key_unlock = 27
tag gateway_unlock = 28
tag illegal_unlock = 29
tag door_sensor_lock = 30
tag door_sensor_unlock = 31
tag door_go_out = 32
tag fr_lock = 33
tag passcode_lock = 34
tag ic_lock = 35
tag operate_key_lock = 36
tag remote_control_key = 37
tag passcode_unlock_failed_lock_reverse = 38
tag ic_unlock_failed_lock_reverse = 39
tag fr_unlock_failed_lock_reverse = 40
tag app_unlock_failed_lock_reverse = 41
tag high_temperature_unlock = 50
tag ic_unlock_failed_blacklist = 51
tag app_dead_lock = 52
tag wireless_key_fob = 55
tag wireless_key_pad = 56
tag qr_code_unlock_success = 57
tag qr_code_unlock_failed = 58
tag qr_code_lock_success = 61
tag qr_code_unlock_failed_lock_reverse = 62
tag door_not_close_alarm = 64
tag face_3d_unlock_success = 67
tag face_3d_unlock_failed_lock_reverse = 68
tag face_3d_lock = 69
tag face_3d_add_success = 70
tag face_3d_unlock_failed_invalid_time = 71
tag face_3d_delete_success = 72
tag face_3d_clear_success = 73
tag cpu_card_unlock_failed = 74
tag app_auth_key_unlock_success = 75
tag gateway_auth_key_unlock_success = 76
tag double_check_key_unlock = 77
tag double_check_passcode_unlock = 78
tag double_check_finger_print_unlock = 79
tag double_check_card_unlock = 80
tag double_check_face_unlock = 81
tag double_check_key_fob_unlock = 82
tag double_check_palm_vein_unlock = 83
tag palm_vein_unlock_success = 84
tag palm_vein_unlock_failed_lock_reverse = 85
tag palm_vein_lock = 86
tag palm_vein_add_success = 87
tag palm_vein_unlock_failed = 88
tag palm_vein_delete_success = 89
tag palm_vein_clear_success = 90
tag card_unlock_failed = 91
tag admin_code_unlock = 92
tag add_passcode_successfully = 93
tag third_device_unlock_success = 94
tag third_device_lock_success = 95
tag third_device_unlock_failed_lock_reverse = 96
tag third_device_unlock_failed_invalid_time = 97
tag double_check_third_device_verify = 98
tag add_third_device = 99
tag delete_third_device = 100
tag clear_third_device = 101
tag anlangjie_log = 107
tag low_battery_auto_unlock = 111
tag high_temperature_alarm = 115
tag fire_alarm = 116
tag get_nfc_lock_state = 249

-- The members in the order of their declaration.
unfoldable pub members : List LogOperate
members =
    mobile_unlock ∷ server_unlock ∷ keyboard_password_unlock ∷ keyboard_modify_password
    ∷ keyboard_remove_single_password ∷ error_password_unlock ∷ keyboard_remove_all_passwords
    ∷ keyboard_password_kicked ∷ use_delete_code ∷ passcode_expired ∷ space_insufficient
    ∷ passcode_in_black_list ∷ door_reboot ∷ add_ic ∷ clear_ic_succeed ∷ ic_unlock_succeed
    ∷ delete_ic_succeed ∷ bong_unlock ∷ fr_unlock_succeed ∷ add_fr ∷ fr_unlock_failed
    ∷ delete_fr_succeed ∷ clear_fr_succeed ∷ ic_unlock_failed ∷ operate_ble_lock
    ∷ operate_key_unlock ∷ gateway_unlock ∷ illegal_unlock ∷ door_sensor_lock ∷ door_sensor_unlock
    ∷ door_go_out ∷ fr_lock ∷ passcode_lock ∷ ic_lock ∷ operate_key_lock ∷ remote_control_key
    ∷ passcode_unlock_failed_lock_reverse ∷ ic_unlock_failed_lock_reverse
    ∷ fr_unlock_failed_lock_reverse ∷ app_unlock_failed_lock_reverse ∷ high_temperature_unlock
    ∷ ic_unlock_failed_blacklist ∷ app_dead_lock ∷ wireless_key_fob ∷ wireless_key_pad
    ∷ qr_code_unlock_success ∷ qr_code_unlock_failed ∷ qr_code_lock_success
    ∷ qr_code_unlock_failed_lock_reverse ∷ door_not_close_alarm ∷ face_3d_unlock_success
    ∷ face_3d_unlock_failed_lock_reverse ∷ face_3d_lock ∷ face_3d_add_success
    ∷ face_3d_unlock_failed_invalid_time ∷ face_3d_delete_success ∷ face_3d_clear_success
    ∷ cpu_card_unlock_failed ∷ app_auth_key_unlock_success ∷ gateway_auth_key_unlock_success
    ∷ double_check_key_unlock ∷ double_check_passcode_unlock ∷ double_check_finger_print_unlock
    ∷ double_check_card_unlock ∷ double_check_face_unlock ∷ double_check_key_fob_unlock
    ∷ double_check_palm_vein_unlock ∷ palm_vein_unlock_success
    ∷ palm_vein_unlock_failed_lock_reverse ∷ palm_vein_lock ∷ palm_vein_add_success
    ∷ palm_vein_unlock_failed ∷ palm_vein_delete_success ∷ palm_vein_clear_success
    ∷ card_unlock_failed ∷ admin_code_unlock ∷ add_passcode_successfully
    ∷ third_device_unlock_success ∷ third_device_lock_success
    ∷ third_device_unlock_failed_lock_reverse ∷ third_device_unlock_failed_invalid_time
    ∷ double_check_third_device_verify ∷ add_third_device ∷ delete_third_device ∷ clear_third_device
    ∷ anlangjie_log ∷ low_battery_auto_unlock ∷ high_temperature_alarm ∷ fire_alarm
    ∷ get_nfc_lock_state ∷ []

unfoldable pub find : ℕ → List LogOperate → Option LogOperate
unfolding tag
find value [] = none
find value (m ∷ ms) = let later = find value ms in if tag m == value then some m else later

or_value : ℕ → Option LogOperate → LogOperate ⊎ ℕ
or_value value (some m) = inl m
or_value value none = inr value

-- `LogOperate.coerce`: a member, or the number itself when no member has that value.
unfoldable pub coerce : ℕ → LogOperate ⊎ ℕ
unfolding find members or_value
coerce value = or_value value (find value members)

pub tag_or_self : LogOperate ⊎ ℕ → ℕ
unfolding tag
tag_or_self (inl m) = tag m
tag_or_self (inr value) = value

find-tag :
    (value : ℕ) (ms : List LogOperate) (m : LogOperate) → find value ms ≡ some m → tag m ≡ value
unfolding find
find-tag value [] m h = cc
find-tag value (x ∷ ms) m h = chosen (tag x == value) refl (find-tag value ms m) h
  where
    chosen :
        (b : Bool)
        → (tag x == value) ≡ b
        → (find value ms ≡ some m → tag m ≡ value)
        → (if b then some x else find value ms) ≡ some m
        → tag m ≡ value
    chosen true e later p = cc (p, (==_iff (tag x) value).0 e)
    chosen false e later p = later p

find_of_tag : (m : LogOperate) → find (tag m) members ≡ some m
unfolding tag find members
find_of_tag m = ground arith

-- A coerced byte keeps its value, and every member is the coercion of its value.
pub coerce-tag :
    ((value : ℕ) → tag_or_self (coerce value) ≡ value) × ((m : LogOperate) → coerce (tag m) ≡ inl m)
unfolding coerce tag_or_self
coerce-tag = (keeps, λ m. ap (or_value (tag m)) (find_of_tag m))
  where
    keeps : (value : ℕ) → tag_or_self (coerce value) ≡ value
    keeps value = elim (Option-cases (find value members)) [
      | inl e ↦ ap (λ o. tag_or_self (or_value value o)) e
      | inr (m, e) ↦ ap (λ o. tag_or_self (or_value value o)) e ∙ find-tag value members m e
    ]
