-- ===== src/I18n/AdvancedBottom.antt =====
-- Entries of the table `kRu` of src/core/I18n.cpp: English, Russian.
use infinity_clicker.Base.{List, [], ◌∷◌}
use infinity_clicker.I18n.Table.{Entry}

unfoldable pub advanced_view_bottom : List Entry
advanced_view_bottom =
    ("Spin / sleep share of time", "Доля спина / сна")
    ∷ ("Wake-up margin (current)", "Запас пробуждения (текущий)")
    ∷ ("Timer oversleep p50 / p99", "Пересып таймера p50 / p99")
    ∷ ("  (no HR timer!)", "  (нет HR-таймера!)")
    ∷ ("Trigger -> first action (last/avg/max)", "Триггер → первое действие (посл./сред./макс.)")
    ∷ ("CPU: process (% of machine / cores)", "CPU: процесс (% машины / ядер)")
    ∷ ("CPU: scheduler thread (cores)", "CPU: поток планировщика (ядер)")
    ∷ ("Hooks: keyboard / mouse / raw input", "Хуки: клавиатура / мышь / raw input")
    ∷ ("on", "вкл")
    ∷ ("OFF", "ВЫКЛ")
    ∷ ("off", "выкл")
    ∷ ("Emergency hotkey backup (RegisterHotKey)", "Резервная аварийка (RegisterHotKey)")
    ∷ ("registered", "зарегистрирована")
    ∷ ("not registered", "не зарегистрирована")
    ∷ ("Reset totals", "Сбросить итоги")
    ∷ ("View log", "Показать лог")
    ∷ (
      "The Input Lab measures the whole pipeline without any game: Infinity Clicker's own clicks go into a separate Test Pad window (own thread) that counts what an application actually receives.",
      "Лаборатория измеряет весь путь ввода без всякой игры: клики Infinity Clicker уходят в отдельное окно-мишень (тест-панель в своём потоке), которое считает, что приложение реально получило.",
    )
    ∷ ("Close Test Pad", "Закрыть тест-панель")
    ∷ ("Open Test Pad", "Открыть тест-панель")
    ∷ ("Observe via mouse hook", "Наблюдать через хук мыши")
    ∷ (
      "Installs WH_MOUSE_LL so stage 3 (events delivered through the system input chain) can be counted. The hook itself costs throughput - that is part of what you measure.",
      "Ставит WH_MOUSE_LL, чтобы посчитать этап 3 (события, прошедшие через системную цепочку ввода). Хук сам снижает пропускную способность — это тоже часть измерения.",
    )
    ∷ ("Reset counters", "Сбросить счётчики")
    ∷ ("1. REQUESTED", "1. ЗАПРОШЕНО")
    ∷ ("events the scheduler asked for", "событий запросил планировщик")
    ∷ ("2. ACCEPTED", "2. ПРИНЯТО")
    ∷ ("SendInput return value", "возврат SendInput")
    ∷ ("  (%.0f/s)", "  (%.0f/с)")
    ∷ ("3. OBSERVED", "3. ПРОШЛО")
    ∷ ("seen by our LL hook", "увидел наш LL-хук")
    ∷ ("enable hook to measure", "включите хук для замера")
    ∷ ("4. RECEIVED", "4. ПОЛУЧЕНО")
    ∷ ("messages the Test Pad got", "сообщений получила тест-панель")
    ∷ (
      "Accepted but not received by the pad: %llu (lost or still queued)",
      "Принято, но не получено панелью: %llu (потеряно или ещё в очереди)",
    )
    ∷ (
      "RUN A TEST WITH THE CURRENT PROFILE INTO THE TEST PAD",
      "ТЕСТОВЫЙ ЗАПУСК ТЕКУЩЕГО ПРОФИЛЯ В ТЕСТ-ПАНЕЛЬ",
    )
    ∷ (
      "Output only flows while the Test Pad is in front AND the cursor is over it.",
      "Вывод идёт, только пока тест-панель впереди И курсор находится над ней.",
    )
    ∷ ("Run 1 s", "Запуск на 1 с")
    ∷ ("Run 5 s", "Запуск на 5 с")
    ∷ ("Run 1000 actions", "1000 действий")
    ∷ ("Stop", "Стоп")
    ∷ ("running...", "идёт...")
    ∷ ("FULL BENCHMARK SUITE", "ПОЛНЫЙ БЕНЧМАРК")
    ∷ (
      "Runs `InfinityClicker.exe --bench quick` in a separate process: timers, spin threshold, SendInput throughput, CPS matrix, priorities, hold-time visibility, trigger latency, stress. Covers the screen with a full-screen pad for ~3 minutes. Results: benchmarks\\latest.md",
      "Запускает `InfinityClicker.exe --bench quick` отдельным процессом: таймеры, порог спина, пропускная способность SendInput, матрица CPS, приоритеты, видимость коротких кликов, задержка триггера, стресс. Примерно на 3 минуты закрывает экран полноэкранной панелью. Результаты: benchmarks\\latest.md",
    )
    ∷ ("Benchmark running...", "Бенчмарк идёт...")
    ∷ ("Run benchmark (quick)", "Запустить бенчмарк (быстрый)")
    ∷ ("Open results", "Открыть результаты")
    ∷ ("Advanced", "Дополнительно")
    ∷ ("Engine", "Движок")
    ∷ ("Diagnostics", "Диагностика")
    ∷ ("Input Lab", "Лаборатория")
    ∷ []
