-- ===== src/I18n/AdvancedMiddle.antt =====
-- Entries of the table `kRu` of src/core/I18n.cpp: English, Russian.
use infinity_clicker.Base.{List, [], ◌∷◌}
use infinity_clicker.I18n.Table.{Entry}

unfoldable pub advanced_view_middle : List Entry
advanced_view_middle =
    ("MODE VALUES", "ЗНАЧЕНИЯ РЕЖИМОВ")
    ∷ ("Burst size", "Размер серии")
    ∷ ("Actions per press in Burst mode.", "Сколько действий за одно нажатие в режиме «Серия».")
    ∷ ("Fixed count", "Кол-во")
    ∷ ("Actions per run in Fixed count mode.", "Сколько действий за запуск в режиме «Кол-во».")
    ∷ ("Duration", "Время")
    ∷ ("Length of a run in Duration mode (ms).", "Длительность запуска в режиме «Время» (мс).")
    ∷ ("TARGET APPLICATION", "ПРИЛОЖЕНИЕ")
    ∷ ("Only click while an application is in front", "Кликать, только когда приложение впереди")
    ∷ (
      "Output pauses automatically whenever another window is in front, and resumes when the target returns. Several names can be separated with ';' (e.g. javaw.exe; java.exe).",
      "Вывод автоматически приостанавливается, когда впереди другое окно, и продолжается, когда целевое окно возвращается. Несколько имён — через «;» (например: javaw.exe; java.exe).",
    )
    ∷ ("process name, e.g. javaw.exe", "имя процесса, например javaw.exe")
    ∷ ("Pick", "Выбрать")
    ∷ ("[admin]", "[админ]")
    ∷ ("No windows found", "Окна не найдены")
    ∷ ("Foreground now: %s", "Сейчас впереди: %s")
    ∷ ("SAFETY", "БЕЗОПАСНОСТЬ")
    ∷ ("Emergency stop", "Аварийная остановка")
    ∷ (
      "Stops output and disarms regardless of mode, profile or window; releases every held key/button.",
      "Останавливает вывод и выключает Infinity Clicker независимо от режима, профиля и окна; отпускает все удерживаемые клавиши и кнопки.",
    )
    ∷ ("Crash guardian process", "Процесс-сторож")
    ∷ (
      "A tiny helper process that releases every held key and button if Infinity Clicker is killed or crashes. Takes effect on the next start.",
      "Крошечный вспомогательный процесс: если Infinity Clicker убит или упал, он отпустит все зажатые клавиши и кнопки. Действует со следующего запуска.",
    )
    ∷ ("EXPERIMENTAL", "ЭКСПЕРИМЕНТАЛЬНО")
    ∷ ("MAX speed", "Скорость MAX")
    ∷ (
      "No target rate: actions are sent as fast as SendInput accepts them. High CPU usage (one core). The real throughput is shown as Actual on the main screen.",
      "Без целевой частоты: действия отправляются так быстро, как их принимает SendInput. Высокая нагрузка на процессор (одно ядро). Реальная скорость показывается на главном экране как «Фактически».",
    )
    ∷ ("Actions per SendInput call", "Действий за вызов SendInput")
    ∷ ("Backpressure", "Backpressure")
    ∷ (
      "Limits in-flight events (accepted by SendInput but not yet seen by Infinity Clicker's hook), so physical input, including the emergency key, never waits behind a pile of synthetic events.",
      "Ограничивает события «в полёте» (принятые SendInput, но ещё не увиденные хуком Infinity Clicker), чтобы физический ввод, включая аварийную клавишу, не ждал в очереди за грудой синтетических событий.",
    )
    ∷ ("Metric", "Метрика")
    ∷ ("Value", "Значение")
    ∷ ("Target CPS", "Целевой CPS")
    ∷ ("Actual CPS - run average", "Фактический CPS — среднее за запуск")
    ∷ ("Actual CPS - last 1 s / 5 s", "Фактический CPS — за 1 с / 5 с")
    ∷ ("Generated actions (run / total)", "Сгенерировано действий (запуск / всего)")
    ∷ ("SendInput calls / s", "Вызовов SendInput в секунду")
    ∷ ("Events accepted / s", "Принято событий в секунду")
    ∷ ("Events requested (run)", "Запрошено событий (запуск)")
    ∷ ("Events accepted by SendInput (run)", "Принято SendInput (запуск)")
    ∷ ("Failed SendInput calls (run)", "Неудачных вызовов SendInput (запуск)")
    ∷ ("  (last error %u)", "  (последняя ошибка %u)")
    ∷ ("Missed deadlines (run)", "Пропущено дедлайнов (запуск)")
    ∷ ("SendInput call time p50 / p99 / max", "Время вызова SendInput p50 / p99 / макс")
    ∷ ("Share of time blocked in SendInput", "Доля времени внутри SendInput")
    ∷ ("Interval min / avg / max", "Интервал мин / сред / макс")
    ∷ ("Jitter (interval std-dev)", "Джиттер (СКО интервала)")
    ∷ ("%s  (last s: %s)", "%s  (1 с: %s)")
    ∷ ("Mean interval error vs target", "Ошибка среднего интервала от цели")
    ∷ ("Lateness p50 / p99 / p99.9", "Опоздание p50 / p99 / p99.9")
    ∷ ("Lateness max, >100 us late", "Опоздание макс., >100 мкс")
    ∷ []
