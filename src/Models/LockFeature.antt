-- ===== src/Models/LockFeature.antt =====
-- ttlock_ble/constants/lock_feature.py: the named capability bits.
use ttlock_ble.Base.{ℕ, List, [], ◌∷◌}

pub data LockFeature : Type 0 where
  passcode ic finger_print wrist_band auto_lock passcode_with_delete_function firmware_setting :
      LockFeature
  modify_passcode_function manual_lock password_display_or_hide gateway_unlock freeze_lock :
      LockFeature
  cyclic_password magnetometer config_gateway_unlock audio_management nb_lock get_admin_code :
      LockFeature
  hotel_lock lock_no_clock_chip support_close_bluetooth_advertising passage_mode : LockFeature
  passage_mode_and_auto_lock_and_can_close wireless_keyboard lamp tamper_alert reset_button :
      LockFeature
  privacy_lock dead_lock cyclic_ic_or_finger_print unlock_direction finger_vein telink_chip :
      LockFeature
  nb_activite_configuration cyclic_passcode_can_recovery remote accessory_battery : LockFeature
  sound_volume_and_language_setting qr_code door_sensor passage_mode_auto_unlock_setting :
      LockFeature
  fingerprint_distribution zhong_zheng syno wireless_door_sensor door_open_alarm sensitivity :
      LockFeature
  face_3d support_motor_torque_setting cpu_card wifi_lock wifi_lock_support_static_ip : LockFeature
  incomplete_passcode support_double_check app_auth_unlock gateway_auth_unlock : LockFeature
  do_not_support_app_and_gateway_unlock support_xm on_micro_chip zhi_an_face_delivery : LockFeature
  palm_vein support_grass reset_lock_by_code support_third_party_bluetooth_device : LockFeature
  auto_set_angle manual_set_angle control_latch_bolt auto_set_unlock_direction : LockFeature
  support_ic_card_security_setting support_wifi_sleep_mode_times_setting : LockFeature
  support_multi_function_keypad do_not_support_turn_off_latch_bolt support_public_mode_setting :
      LockFeature
  support_low_battery_unlock_setting support_motor_drive_time_setting : LockFeature
  support_modify_feature_value support_modify_lock_name_prefix support_auth_code : LockFeature
  unauthorized_attempt_alarm support_clear_passcode_and_dynamic_passcode_setting : LockFeature
  power_saver_support_wifi support_bluetooth_advertising_setting support_working_times : LockFeature
  support_supplier_code support_cat_one support_forced_opening_door_alarm : LockFeature
  zhi_an_face_feature_second_generation support_dead_locking support_custom_qr_code : LockFeature
  support_safe_m1_card yi_sheng_face_delivery support_picture_face_delivery support_set_alias :
      LockFeature
  hide_wifi_cat_one_sleep_mode_setting support_semi_automatic_mode_control : LockFeature
  support_lock_supervision : LockFeature

-- `int(member)`
unfoldable pub bit : LockFeature → ℕ
bit passcode = 0
bit ic = 1
bit finger_print = 2
bit wrist_band = 3
bit auto_lock = 4
bit passcode_with_delete_function = 5
bit firmware_setting = 6
bit modify_passcode_function = 7
bit manual_lock = 8
bit password_display_or_hide = 9
bit gateway_unlock = 10
bit freeze_lock = 11
bit cyclic_password = 12
bit magnetometer = 13
bit config_gateway_unlock = 14
bit audio_management = 15
bit nb_lock = 16
bit get_admin_code = 18
bit hotel_lock = 19
bit lock_no_clock_chip = 20
bit support_close_bluetooth_advertising = 21
bit passage_mode = 22
bit passage_mode_and_auto_lock_and_can_close = 23
bit wireless_keyboard = 24
bit lamp = 25
bit tamper_alert = 28
bit reset_button = 29
bit privacy_lock = 30
bit dead_lock = 32
bit cyclic_ic_or_finger_print = 34
bit unlock_direction = 36
bit finger_vein = 37
bit telink_chip = 38
bit nb_activite_configuration = 39
bit cyclic_passcode_can_recovery = 40
bit remote = 41
bit accessory_battery = 42
bit sound_volume_and_language_setting = 43
bit qr_code = 44
bit door_sensor = 45
bit passage_mode_auto_unlock_setting = 46
bit fingerprint_distribution = 47
bit zhong_zheng = 48
bit syno = 49
bit wireless_door_sensor = 50
bit door_open_alarm = 51
bit sensitivity = 52
bit face_3d = 53
bit support_motor_torque_setting = 54
bit cpu_card = 55
bit wifi_lock = 56
bit wifi_lock_support_static_ip = 58
bit incomplete_passcode = 60
bit support_double_check = 63
bit app_auth_unlock = 64
bit gateway_auth_unlock = 65
bit do_not_support_app_and_gateway_unlock = 66
bit support_xm = 67
bit on_micro_chip = 68
bit zhi_an_face_delivery = 69
bit palm_vein = 70
bit support_grass = 75
bit reset_lock_by_code = 76
bit support_third_party_bluetooth_device = 77
bit auto_set_angle = 78
bit manual_set_angle = 79
bit control_latch_bolt = 80
bit auto_set_unlock_direction = 81
bit support_ic_card_security_setting = 82
bit support_wifi_sleep_mode_times_setting = 83
bit support_multi_function_keypad = 84
bit do_not_support_turn_off_latch_bolt = 85
bit support_public_mode_setting = 86
bit support_low_battery_unlock_setting = 87
bit support_motor_drive_time_setting = 88
bit support_modify_feature_value = 89
bit support_modify_lock_name_prefix = 90
bit support_auth_code = 92
bit unauthorized_attempt_alarm = 93
bit support_clear_passcode_and_dynamic_passcode_setting = 95
bit power_saver_support_wifi = 96
bit support_bluetooth_advertising_setting = 97
bit support_working_times = 98
bit support_supplier_code = 99
bit support_cat_one = 100
bit support_forced_opening_door_alarm = 102
bit zhi_an_face_feature_second_generation = 103
bit support_dead_locking = 106
bit support_custom_qr_code = 108
bit support_safe_m1_card = 109
bit yi_sheng_face_delivery = 110
bit support_picture_face_delivery = 112
bit support_set_alias = 114
bit hide_wifi_cat_one_sleep_mode_setting = 117
bit support_semi_automatic_mode_control = 119
bit support_lock_supervision = 126

-- The members in the order of their declaration.
unfoldable pub members : List LockFeature
members =
    passcode ∷ ic ∷ finger_print ∷ wrist_band ∷ auto_lock ∷ passcode_with_delete_function
    ∷ firmware_setting ∷ modify_passcode_function ∷ manual_lock ∷ password_display_or_hide
    ∷ gateway_unlock ∷ freeze_lock ∷ cyclic_password ∷ magnetometer ∷ config_gateway_unlock
    ∷ audio_management ∷ nb_lock ∷ get_admin_code ∷ hotel_lock ∷ lock_no_clock_chip
    ∷ support_close_bluetooth_advertising ∷ passage_mode ∷ passage_mode_and_auto_lock_and_can_close
    ∷ wireless_keyboard ∷ lamp ∷ tamper_alert ∷ reset_button ∷ privacy_lock ∷ dead_lock
    ∷ cyclic_ic_or_finger_print ∷ unlock_direction ∷ finger_vein ∷ telink_chip
    ∷ nb_activite_configuration ∷ cyclic_passcode_can_recovery ∷ remote ∷ accessory_battery
    ∷ sound_volume_and_language_setting ∷ qr_code ∷ door_sensor ∷ passage_mode_auto_unlock_setting
    ∷ fingerprint_distribution ∷ zhong_zheng ∷ syno ∷ wireless_door_sensor ∷ door_open_alarm
    ∷ sensitivity ∷ face_3d ∷ support_motor_torque_setting ∷ cpu_card ∷ wifi_lock
    ∷ wifi_lock_support_static_ip ∷ incomplete_passcode ∷ support_double_check ∷ app_auth_unlock
    ∷ gateway_auth_unlock ∷ do_not_support_app_and_gateway_unlock ∷ support_xm ∷ on_micro_chip
    ∷ zhi_an_face_delivery ∷ palm_vein ∷ support_grass ∷ reset_lock_by_code
    ∷ support_third_party_bluetooth_device ∷ auto_set_angle ∷ manual_set_angle ∷ control_latch_bolt
    ∷ auto_set_unlock_direction ∷ support_ic_card_security_setting
    ∷ support_wifi_sleep_mode_times_setting ∷ support_multi_function_keypad
    ∷ do_not_support_turn_off_latch_bolt ∷ support_public_mode_setting
    ∷ support_low_battery_unlock_setting ∷ support_motor_drive_time_setting
    ∷ support_modify_feature_value ∷ support_modify_lock_name_prefix ∷ support_auth_code
    ∷ unauthorized_attempt_alarm ∷ support_clear_passcode_and_dynamic_passcode_setting
    ∷ power_saver_support_wifi ∷ support_bluetooth_advertising_setting ∷ support_working_times
    ∷ support_supplier_code ∷ support_cat_one ∷ support_forced_opening_door_alarm
    ∷ zhi_an_face_feature_second_generation ∷ support_dead_locking ∷ support_custom_qr_code
    ∷ support_safe_m1_card ∷ yi_sheng_face_delivery ∷ support_picture_face_delivery
    ∷ support_set_alias ∷ hide_wifi_cat_one_sleep_mode_setting ∷ support_semi_automatic_mode_control
    ∷ support_lock_supervision ∷ []
