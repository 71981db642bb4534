-- ===== src/I18n/Core.antt =====
-- Entries of the table `kRu` of src/core/I18n.cpp: English, Russian.
use infinity_clicker.Base.{List, [], ◌∷◌}
use infinity_clicker.I18n.Table.{Entry}

unfoldable pub app : List Entry
app =
    ("ERROR: keyboard hook could not be installed", "ОШИБКА: не удалось установить хук клавиатуры")
    ∷ ("Could not save settings: ", "Не удалось сохранить настройки: ")
    ∷ ("Binding cancelled (timeout)", "Назначение отменено (время вышло)")
    ∷ (
      "EMERGENCY STOP - output halted, held input released, disarmed",
      "АВАРИЙНАЯ ОСТАНОВКА — вывод остановлен, клавиши отпущены, охрана снята",
    )
    ∷ ("Trigger: ", "Триггер: ")
    ∷ ("Action: ", "Действие: ")
    ∷ (
      "Left Mouse alone cannot be the emergency stop",
      "Одна левая кнопка мыши не может быть аварийной остановкой",
    )
    ∷ ("Emergency stop: ", "Аварийная остановка: ")
    ∷ []

unfoldable pub key_chord : List Entry
key_chord =
    ("Left Mouse", "Левая кнопка мыши")
    ∷ ("Right Mouse", "Правая кнопка мыши")
    ∷ ("Middle Mouse", "Средняя кнопка мыши")
    ∷ ("Mouse Button 4", "Кнопка мыши 4")
    ∷ ("Mouse Button 5", "Кнопка мыши 5")
    ∷ ("Wheel Up", "Колесо вверх")
    ∷ ("Wheel Down", "Колесо вниз")
    ∷ ("Wheel Left", "Колесо влево")
    ∷ ("Wheel Right", "Колесо вправо")
    ∷ ("(none)", "(нет)")
    ∷ []

unfoldable pub auto_test : List Entry
auto_test =
    (
      "INFINITY CLICKER AUTOTEST RUNNING - please don't touch mouse/keyboard.  Ctrl+Shift+F12 = abort",
      "ИДЁТ АВТОТЕСТ INFINITY CLICKER — не трогайте мышь и клавиатуру.  Ctrl+Shift+F12 — прервать",
    )
    ∷ []

unfoldable pub bench : List Entry
bench =
    (
      "BENCHMARK RUNNING - please don't touch mouse/keyboard.   Ctrl+Shift+F12 = abort",
      "ИДЁТ БЕНЧМАРК — не трогайте мышь и клавиатуру.   Ctrl+Shift+F12 — прервать",
    )
    ∷ []

unfoldable pub test_pad : List Entry
test_pad =
    (
      "Infinity Clicker Test Pad - click target",
      "Infinity Clicker — тест-панель (мишень для кликов)",
    )
    ∷ ("INFINITY CLICKER  -  INPUT LAB TEST PAD", "INFINITY CLICKER  —  ТЕСТ-ПАНЕЛЬ ЛАБОРАТОРИИ")
    ∷ (
      "synthetic events received by this window (GetMessageExtraInfo = Infinity Clicker tag)",
      "синтетических событий получило это окно (GetMessageExtraInfo = тег Infinity Clicker)",
    )
    ∷ (
      "L %llu/%llu   R %llu/%llu   M %llu/%llu   X1 %llu/%llu   X2 %llu/%llu   (down/up)",
      "Л %llu/%llu   П %llu/%llu   С %llu/%llu   X1 %llu/%llu   X2 %llu/%llu   (нажато/отпущено)",
    )
    ∷ (
      "Wheel up %llu  down %llu  left %llu  right %llu     Keys down %llu  up %llu",
      "Колесо вверх %llu  вниз %llu  влево %llu  вправо %llu     Клавиши: нажато %llu  отпущено %llu",
    )
    ∷ (
      "Your own (non-Infinity Clicker) input here: %llu",
      "Ваш собственный ввод (не Infinity Clicker): %llu",
    )
    ∷ []

unfoldable pub profile : List Entry
profile =
    ("Default", "Стандартный")
    ∷ ("Browser", "Браузер")
    ∷ ("Testing", "Тест")
    ∷ ("Fast", "Быстрый")
    ∷ ("Custom", "Свой")
    ∷ []

unfoldable pub main_window : List Entry
main_window =
    ("ACTIVE %.1f CPS", "АКТИВЕН %.1f CPS")
    ∷ ("PAUSED", "ПАУЗА")
    ∷ ("READY", "ГОТОВ")
    ∷ ("STOPPED", "ОСТАНОВЛЕН")
    ∷ ("Profile: ", "Профиль: ")
    ∷ ("Direct3D 11 initialisation failed.", "Не удалось инициализировать Direct3D 11.")
    ∷ []

unfoldable pub tray : List Entry
tray =
    ("Start (arm)", "Старт (взвести)")
    ∷ ("Profile", "Профиль")
    ∷ ("Open Infinity Clicker", "Открыть Infinity Clicker")
    ∷ ("Exit", "Выход")
    ∷ []
