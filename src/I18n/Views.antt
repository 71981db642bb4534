-- ===== src/I18n/Views.antt =====
-- Entries of the table `kRu` of src/core/I18n.cpp: English, Russian.
use infinity_clicker.Base.{List, [], ◌∷◌}
use infinity_clicker.I18n.Table.{Entry}

unfoldable pub views : List Entry
views =
    (
      "Paused: Infinity Clicker's own window is in front",
      "Пауза: впереди окно самого Infinity Clicker",
    )
    ∷ ("Paused: move the cursor over the Test Pad", "Пауза: наведите курсор на тест-панель")
    ∷ (
      "Paused: the target application is not in front",
      "Пауза: целевое приложение не на переднем плане",
    )
    ∷ ("Release %s to stop", "Отпустите «%s», чтобы остановить")
    ∷ ("Hold %s", "Удерживайте «%s»")
    ∷ ("Press %s to stop", "Нажмите «%s», чтобы остановить")
    ∷ ("Press %s to start / stop", "Нажмите «%s», чтобы включить / выключить")
    ∷ ("Running...", "Работает...")
    ∷ ("Press %s for %llu actions", "Нажмите «%s» — %llu действий")
    ∷ ("Press %s to run %llu actions", "Нажмите «%s», чтобы выполнить %llu действий")
    ∷ ("Press %s to run for %s", "Нажмите «%s», чтобы работать %s")
    ∷ ("Manage profiles", "Управление профилями")
    ∷ ("ACTION", "ДЕЙСТВИЕ")
    ∷ ("MODE", "РЕЖИМ")
    ∷ ("actions", "действий")
    ∷ ("More", "Ещё")
    ∷ ("Hold", "Удержание")
    ∷ ("Toggle", "Вкл/Выкл")
    ∷ ("Burst", "Серия")
    ∷ ("Stop after a set number of actions", "Остановиться после заданного числа действий")
    ∷ ("Run for a set amount of time", "Работать заданное время")
    ∷ ("SPEED", "СКОРОСТЬ")
    ∷ (
      "Experimental: as fast as Windows accepts input. Turn it off in Advanced settings.",
      "Экспериментально: так быстро, как Windows принимает ввод. Выключается в дополнительных настройках.",
    )
    ∷ ("= one click every %s", "= один клик раз в %s")
    ∷ ("= %s CPS", "= %s CPS")
    ∷ ("Actual", "Фактически")
    ∷ ("Windows is slowing input down right now", "Сейчас Windows замедляет ввод")
    ∷ ("STOP", "СТОП")
    ∷ ("ARMED", "ВКЛЮЧЁН")
    ∷ ("ARM", "ВКЛЮЧИТЬ")
    ∷ ("Enable the trigger", "Включить триггер")
    ∷ ("Stop clicking", "Остановить клики")
    ∷ ("Click to disarm", "Нажмите, чтобы выключить")
    ∷ ("Only while %s is in front", "Только пока «%s» впереди")
    ∷ (
      "Windows rejected the input (screen locked or a UAC prompt is open)",
      "Windows отклонила ввод (экран заблокирован или открыт запрос UAC)",
    )
    ∷ ("Windows rejected some input events", "Windows отклонила часть событий ввода")
    ∷ ("Emergency stop: %s", "Аварийная остановка: %s")
    ∷ ("Advanced settings", "Дополнительные настройки")
    ∷ ("Profiles", "Профили")
    ∷ ("Trigger: %s (%s)", "Триггер: %s (%s)")
    ∷ ("Action: %s, %s", "Действие: %s, %s")
    ∷ ("Activate", "Сделать активным")
    ∷ ("Active", "Активен")
    ∷ ("Rename", "Переименовать")
    ∷ ("Duplicate", "Дублировать")
    ∷ (" copy", " (копия)")
    ∷ ("Delete", "Удалить")
    ∷ ("Delete profile '%s'?", "Удалить профиль «%s»?")
    ∷ ("Cancel", "Отмена")
    ∷ ("New profile", "Новый профиль")
    ∷ ("Reset to defaults", "Сбросить к стандартным")
    ∷ ("Replace all profiles with the built-in set?", "Заменить все профили встроенным набором?")
    ∷ ("Replace", "Заменить")
    ∷ []
