-- ===== src/I18n/AdvancedTop.antt =====
-- Entries of the table `kRu` of src/core/I18n.cpp: English, Russian.
use infinity_clicker.Base.{List, [], ◌∷◌}
use infinity_clicker.I18n.Table.{Entry}

unfoldable pub advanced_view_top : List Entry
advanced_view_top =
    ("TIMING", "ТАЙМИНГ")
    ∷ ("ECO", "ЭКО")
    ∷ ("STANDARD", "СТАНДАРТ")
    ∷ ("ULTRA", "УЛЬТРА")
    ∷ ("Timer only. ~0.3-1 ms jitter, ~0% CPU.", "Только таймер. Джиттер ~0.3–1 мс, нагрузка ~0%.")
    ∷ (
      "Timer + short QPC spin (<= 10% of the interval). Exact up to ~100 CPS, low CPU.",
      "Таймер + короткий QPC-спин (≤ 10% интервала). Точно до ~100 CPS, низкая нагрузка.",
    )
    ∷ (
      "Timer + spin to the deadline. Microsecond timing at any rate - HIGH CPU above ~250 CPS.",
      "Таймер + спин до дедлайна. Микросекундная точность на любой частоте — ВЫСОКАЯ нагрузка выше ~250 CPS.",
    )
    ∷ ("Precision", "Точность")
    ∷ ("ms", "мс")
    ∷ ("us", "мкс")
    ∷ ("Speed unit", "Единица скорости")
    ∷ (
      "Unit of the speed value on the main screen.",
      "В чём показывается скорость на главном экране.",
    )
    ∷ ("Down time", "Удержание")
    ∷ (
      "Down time >= interval: it will be clamped to 50% of the interval.",
      "Удержание ≥ интервала: будет уменьшено до 50% интервала.",
    )
    ∷ (
      "How long the button stays down (us). Games that read the button once per frame need 10 ms or more.",
      "Сколько кнопка остаётся нажатой (мкс). Играм, которые проверяют кнопку раз в кадр, нужно 10 мс и больше.",
    )
    ∷ ("%u ms", "%u мс")
    ∷ ("%u us", "%u мкс")
    ∷ ("Presses per action", "Нажатий за действие")
    ∷ ("x2 = double click, x3 = triple click.", "x2 — двойной клик, x3 — тройной.")
    ∷ ("Gap between presses (us)", "Пауза между нажатиями (мкс)")
    ∷ ("SCHEDULER AND INPUT", "ПЛАНИРОВЩИК И ВВОД")
    ∷ ("Normal", "Обычный")
    ∷ ("Above normal", "Выше обычного")
    ∷ ("Highest", "Наивысший")
    ∷ ("Time critical", "Критический")
    ∷ ("MMCSS (Games)", "MMCSS (Игры)")
    ∷ ("Scheduler thread priority", "Приоритет потока планировщика")
    ∷ (
      "Priority inside the NORMAL process class (Infinity Clicker never uses REALTIME_PRIORITY_CLASS). Matters mostly when the CPU is fully loaded - see BENCHMARK.md.",
      "Приоритет внутри класса процесса NORMAL (REALTIME_PRIORITY_CLASS Infinity Clicker не использует). Важен в основном при полной загрузке процессора — см. BENCHMARK.md.",
    )
    ∷ ("Catch up (batch due actions)", "Догонять (пакетом)")
    ∷ ("Strict (skip missed slots)", "Строго (пропускать)")
    ∷ ("Late policy", "При опоздании")
    ∷ (
      "The timeline is absolute (slot k = start + k * interval), so lateness never accumulates into drift. Catch up: slots that are already due go out in one SendInput call (max 8). Strict: overdue slots are skipped and counted as missed.",
      "Шкала времени абсолютная (слот k = старт + k × интервал), поэтому опоздания не накапливаются в дрейф. Догонять: слоты, которые уже наступили, уходят одним вызовом SendInput (до 8). Строго: просроченные слоты пропускаются и считаются пропущенными.",
    )
    ∷ ("Scan code (games, DirectInput/raw input)", "Скан-код (игры, DirectInput/raw input)")
    ∷ ("Virtual key", "Виртуальный код (VK)")
    ∷ ("Keyboard injection", "Ввод клавиатуры")
    ∷ ("TRIGGER", "ТРИГГЕР")
    ∷ ("Low-level hook (WH_MOUSE_LL)", "Low-level хук (WH_MOUSE_LL)")
    ∷ ("Raw Input (no hook)", "Raw Input (без хука)")
    ∷ ("Mouse trigger backend", "Источник мышиного триггера")
    ∷ (
      "Hook: can block the trigger and tells physical from injected input exactly, but every mouse event in the system passes through it and SendInput gets slower (measured). Raw Input: cheaper, cannot block the trigger and cannot flag input injected by other programs. Infinity Clicker's own events are always recognised by their tag.",
      "Хук: умеет блокировать триггер и точно отличает физический ввод от эмулированного, но через него проходит каждое событие мыши в системе, и SendInput становится медленнее (измерено). Raw Input: дешевле, не умеет блокировать триггер и не распознаёт ввод, эмулированный другими программами. Собственные события Infinity Clicker распознаются всегда — по тегу.",
    )
    ∷ ("Block the trigger from other applications", "Не пускать триггер в другие программы")
    ∷ (
      "The trigger key/button is swallowed, e.g. Mouse Button 4 stops navigating 'Back' in a browser while armed. Uses a low-level hook.",
      "Клавиша или кнопка триггера перехватывается: например, кнопка мыши 4 перестаёт листать «Назад» в браузере, пока Infinity Clicker включён. Использует low-level хук.",
    )
    ∷ (
      "Accept input injected by other programs",
      "Принимать ввод, эмулированный другими программами",
    )
    ∷ (
      "Treat keys sent by macro tools or remote desktop as real presses. Infinity Clicker's own clicks never count.",
      "Считать клавиши от макро-программ и удалённого рабочего стола настоящими нажатиями. Собственные клики Infinity Clicker никогда не считаются.",
    )
    ∷ []
