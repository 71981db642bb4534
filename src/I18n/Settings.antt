-- ===== src/I18n/Settings.antt =====
-- Entries of the table `kRu` of src/core/I18n.cpp: English, Russian.
use infinity_clicker.Base.{List, [], ◌∷◌}
use infinity_clicker.I18n.Table.{Entry}

unfoldable pub settings_view : List Entry
settings_view =
    ("Settings", "Настройки")
    ∷ ("General", "Общие")
    ∷ ("Hotkeys", "Горячие клавиши")
    ∷ ("Behavior", "Поведение")
    ∷ ("Appearance", "Вид")
    ∷ ("Auto (system)", "Авто (как в Windows)")
    ∷ ("Language", "Язык")
    ∷ ("Auto follows the Windows display language.", "Авто — язык интерфейса Windows.")
    ∷ ("Start with Windows", "Запускать вместе с Windows")
    ∷ (
      "Starts Infinity Clicker minimized to the tray when you sign in.",
      "При входе в систему Infinity Clicker стартует свёрнутым в трей.",
    )
    ∷ ("Could not change the startup entry", "Не удалось изменить автозапуск")
    ∷ ("Minimize to tray", "Сворачивать в трей")
    ∷ ("Close button hides to tray", "Крестик прячет в трей")
    ∷ ("Exit from the tray menu.", "Выход — через меню трея.")
    ∷ ("Start minimized to tray", "Запускать свёрнутым в трей")
    ∷ (
      "Stops output and disarms regardless of mode, profile or window; releases every held key/button. Detected by the keyboard hook, backed up by RegisterHotKey.",
      "Останавливает вывод и снимает с охраны независимо от режима, профиля и окна; отпускает все удерживаемые клавиши и кнопки. Ловится хуком клавиатуры, продублирована через RegisterHotKey.",
    )
    ∷ (
      "The trigger and the action of each profile are set on the main screen.",
      "Триггер и действие каждого профиля задаются на главном экране.",
    )
    ∷ ("Arm automatically when Infinity Clicker starts", "Взводить автоматически при запуске")
    ∷ (
      "Pause output while Infinity Clicker's own window is in front",
      "Пауза, пока впереди окно самого Infinity Clicker",
    )
    ∷ (
      "Prevents clicks from landing on Infinity Clicker's own controls.",
      "Чтобы клики не попадали в элементы самого Infinity Clicker.",
    )
    ∷ ("Always on top", "Поверх всех окон")
    ∷ ("Write log file", "Писать лог-файл")
    ∷ ("Debug logging", "Отладочный лог")
    ∷ (
      "Adds one-line engine summaries every second while clicking.",
      "Добавляет ежесекундные сводки движка, пока идут клики.",
    )
    ∷ ("Logs and data", "Логи и данные")
    ∷ ("Open logs", "Открыть логи")
    ∷ ("Data folder", "Папка данных")
    ∷ (
      "Running as administrator - can send input to elevated windows too.",
      "Запущено от администратора — ввод доходит и до окон с правами администратора.",
    )
    ∷ ("Privileges", "Права")
    ∷ (
      "Windows blocks input from a normal process into windows running as administrator (User Interface Privilege Isolation). SendInput still reports success - the events are silently dropped. If your target app runs elevated, restart Infinity Clicker elevated.",
      "Windows не пропускает ввод из обычного процесса в окна, запущенные от администратора (User Interface Privilege Isolation). SendInput при этом сообщает об успехе, а события молча теряются. Если нужное приложение запущено от администратора, перезапустите Infinity Clicker так же.",
    )
    ∷ ("Restart as administrator", "Перезапустить от администратора")
    ∷ (
      "Infinity Clicker %s - native C++20 / Win32 / Direct3D 11 / Dear ImGui %s. No network, no telemetry.",
      "Infinity Clicker %s — нативный C++20 / Win32 / Direct3D 11 / Dear ImGui %s. Без сети и без телеметрии.",
    )
    ∷ ("Log", "Лог")
    ∷ ("Close", "Закрыть")
    ∷ []
