-- ===== src/I18n/Widgets.antt =====
-- Entries of the table `kRu` of src/core/I18n.cpp: English, Russian.
use infinity_clicker.Base.{List, [], ◌∷◌}
use infinity_clicker.I18n.Table.{Entry}

unfoldable pub widgets : List Entry
widgets =
    ("%.3f s", "%.3f с")
    ∷ ("%.3f ms", "%.3f мс")
    ∷ ("%.1f us", "%.1f мкс")
    ∷ ("%.3g s", "%.3g с")
    ∷ ("%.3g ms", "%.3g мс")
    ∷ ("%.3g us", "%.3g мкс")
    ∷ ("Listening...", "Нажмите клавишу...")
    ∷ ("%.0f s", "%.0f с")
    ∷ (
      "Click, then press the key or mouse button you want to use.\nLeft clicks on this window are ignored while listening; click elsewhere to bind Left Mouse.",
      "Нажмите, затем нажмите нужную клавишу или кнопку мыши.\nПока идёт ожидание, левые клики по этому окну игнорируются; чтобы назначить левую кнопку мыши, кликните вне окна.",
    )
    ∷ ("Pick from the full key list", "Выбрать из полного списка клавиш")
    ∷ ("Modifiers", "Модификаторы")
    ∷ ("Mouse", "Мышь")
    ∷ ("ACTIVE", "АКТИВЕН")
    ∷ ("CPS history (10 s)", "История CPS (10 с)")
    ∷ ("Back", "Назад")
    ∷ []

unfoldable pub dynamic_names : List Entry
dynamic_names =
    ("Count", "Количество")
    ∷ ("Space", "Пробел")
    ∷ ("Left Shift", "Левый Shift")
    ∷ ("Right Shift", "Правый Shift")
    ∷ ("Left Ctrl", "Левый Ctrl")
    ∷ ("Right Ctrl", "Правый Ctrl")
    ∷ ("Left Alt", "Левый Alt")
    ∷ ("Right Alt", "Правый Alt")
    ∷ ("Left Win", "Левый Win")
    ∷ ("Right Win", "Правый Win")
    ∷ ("Menu", "Меню")
    ∷ ("Up", "Вверх")
    ∷ ("Down", "Вниз")
    ∷ ("Left", "Влево")
    ∷ ("Right", "Вправо")
    ∷ ("Volume Mute", "Без звука")
    ∷ ("Volume Down", "Громкость −")
    ∷ ("Volume Up", "Громкость +")
    ∷ ("Media Next", "Следующий трек")
    ∷ ("Media Previous", "Предыдущий трек")
    ∷ ("Media Stop", "Стоп (медиа)")
    ∷ ("Media Play/Pause", "Воспроизведение/пауза")
    ∷ ("Browser Back", "Браузер: назад")
    ∷ ("Browser Forward", "Браузер: вперёд")
    ∷ ("Letters", "Буквы")
    ∷ ("Digits", "Цифры")
    ∷ ("Function", "Функциональные")
    ∷ ("Main", "Основные")
    ∷ ("Navigation", "Навигация")
    ∷ ("System", "Системные")
    ∷ ("OEM", "Символы (OEM)")
    ∷ ("Media", "Медиа")
    ∷ []
