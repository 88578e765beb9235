-- ===== src/Http/Expiry.antt =====
-- The dates of test_05_03/session/HttpProtocol.hpp and the cookie lines that main can be made to send.
use linux_system_learning.Prelude.{
  ℕ, ◌+◌, ◌-◌, List, [], ◌∷◌, ◌++◌, Option, none, some, get_elem?, take,
}
use linux_system_learning.Prelude.Outcome.{Outcome, returned, undefined, ◌>>=◌}
use linux_system_learning.Text.{Bytes, codes, to_string}
use linux_system_learning.Log.{Tm, padded}

abbrev pub months : List Bytes
months =
    codes "Jan"
    ∷ codes "Feb"
    ∷ codes "Mar"
    ∷ codes "Apr"
    ∷ codes "May"
    ∷ codes "Jun"
    ∷ codes "Jul"
    ∷ codes "Aug"
    ∷ codes "Sep"
    ∷ codes "Oct"
    ∷ codes "Nov"
    ∷ codes "Dec"
    ∷ []

abbrev pub weekdays : List Bytes
weekdays =
    codes "Sun"
    ∷ codes "Mon"
    ∷ codes "Tue"
    ∷ codes "Wed"
    ∷ codes "Thu"
    ∷ codes "Fri"
    ∷ codes "Sat"
    ∷ []

-- An index out of range is undefined.
abbrev pub name_at : Option Bytes → Outcome Bytes
name_at none = undefined
name_at (some name) = returned name

abbrev pub get_month_name : ℕ → Outcome Bytes
get_month_name month = name_at (get_elem? months month)

abbrev pub get_week_day_name : ℕ → Outcome Bytes
get_week_day_name day = name_at (get_elem? weekdays day)

abbrev pub date_buffer : ℕ
date_buffer = 1024

-- The text for the names of the day and of the month
unfoldable pub rfc1123 : Tm → Bytes → Bytes → Bytes
rfc1123 tm day month = take (date_buffer - 1) (
    (day ++ codes ", ")
    ++ (padded 2 b'0' tm.tm_mday
        ++ ((b' ' ∷ month)
            ++ ((b' ' ∷ to_string (tm.tm_year + 1900))
                ++ ((b' ' ∷ padded 2 b'0' tm.tm_hour)
                    ++ ((b':' ∷ padded 2 b'0' tm.tm_min)
                        ++ ((b':' ∷ padded 2 b'0' tm.tm_sec) ++ codes " UTC")))))))

-- ExpireTimeUseRfc1123, for the time that gmtime gave and its day of the week
unfoldable pub expire_time : ℕ → Tm → Outcome Bytes
unfolding rfc1123
expire_time tm_wday tm = get_week_day_name tm_wday >>= λ day.
    get_month_name tm.tm_mon >>= λ month. returned (rfc1123 tm day month)

abbrev pub prove_cookie_write : Bytes
prove_cookie_write = codes "Set-Cookie: username=zhangsan;"

unfoldable pub prove_cookie_time_out : ℕ → Tm → Outcome Bytes
unfolding expire_time
prove_cookie_time_out tm_wday tm = expire_time tm_wday tm >>= λ expires.
    returned (codes "Set-Cookie: username=zhangsan; expires=" ++ (expires ++ codes ";"))

abbrev pub prove_path : Bytes
prove_path = codes "Set-Cookie: username=zhangsan; path=/a/b;"
