-- ===== src/Files/Kinds.antt =====
-- apps/everyday/files/filesx-core.js: the kind of a file by its extension. A regular expression of the
-- source that ends a name by one of some extensions, in either case, is the list of these.
mod Tests
use vibetop.Base.{
  ℕ, ◌+◌, Bool, true, false, ◌&&◌, ◌||◌, Option, none, some, List, [], ◌∷◌, ◌++◌, if◌then◌else◌,
  ◌==◌, leb, length, drop, ◌-◌, Text, same, codes, lookup, reverse,
}
use vibetop.Files.Paths.{dot, extension, is_prefix}

office : List Text
office =
    codes "doc"
    ∷ codes "docx"
    ∷ codes "docm"
    ∷ codes "dot"
    ∷ codes "dotx"
    ∷ codes "dotm"
    ∷ codes "xls"
    ∷ codes "xlsx"
    ∷ codes "xlsm"
    ∷ codes "xlsb"
    ∷ codes "xlt"
    ∷ codes "xltx"
    ∷ codes "xltm"
    ∷ codes "ppt"
    ∷ codes "pptx"
    ∷ codes "pptm"
    ∷ codes "pps"
    ∷ codes "ppsx"
    ∷ codes "ppsm"
    ∷ codes "pot"
    ∷ codes "potx"
    ∷ codes "potm"
    ∷ codes "odt"
    ∷ codes "ods"
    ∷ codes "odp"
    ∷ codes "ott"
    ∷ codes "ots"
    ∷ codes "otp"
    ∷ codes "rtf"
    ∷ codes "csv"
    ∷ codes "tsv"
    ∷ []

images : List Text
images =
    codes "png"
    ∷ codes "jpg"
    ∷ codes "jpeg"
    ∷ codes "gif"
    ∷ codes "webp"
    ∷ codes "bmp"
    ∷ codes "svg"
    ∷ codes "avif"
    ∷ codes "ico"
    ∷ codes "heic"
    ∷ codes "heif"
    ∷ codes "tif"
    ∷ codes "tiff"
    ∷ []

videos : List Text
videos =
    codes "mp4"
    ∷ codes "m4v"
    ∷ codes "mov"
    ∷ codes "mkv"
    ∷ codes "webm"
    ∷ codes "avi"
    ∷ codes "wmv"
    ∷ codes "flv"
    ∷ codes "ogv"
    ∷ codes "mpg"
    ∷ codes "mpeg"
    ∷ codes "ts"
    ∷ codes "m2ts"
    ∷ codes "3gp"
    ∷ []

audio : List Text
audio =
    codes "mp3"
    ∷ codes "wav"
    ∷ codes "flac"
    ∷ codes "ogg"
    ∷ codes "m4a"
    ∷ codes "aac"
    ∷ codes "opus"
    ∷ codes "wma"
    ∷ []

archives : List Text
archives =
    codes "zip"
    ∷ codes "tar"
    ∷ codes "gz"
    ∷ codes "tgz"
    ∷ codes "xz"
    ∷ codes "bz2"
    ∷ codes "7z"
    ∷ codes "rar"
    ∷ codes "zst"
    ∷ []

kind_map : List (Text × Text)
kind_map =
    (codes "png", codes "PNG image")
    ∷ (codes "jpg", codes "JPEG image")
    ∷ (codes "jpeg", codes "JPEG image")
    ∷ (codes "gif", codes "GIF image")
    ∷ (codes "webp", codes "WebP image")
    ∷ (codes "svg", codes "SVG image")
    ∷ (codes "heic", codes "HEIC image")
    ∷ (codes "bmp", codes "Bitmap image")
    ∷ (codes "tif", codes "TIFF image")
    ∷ (codes "tiff", codes "TIFF image")
    ∷ (codes "ico", codes "Icon image")
    ∷ (codes "avif", codes "AVIF image")
    ∷ (codes "mp4", codes "MPEG-4 video")
    ∷ (codes "mkv", codes "Matroska video")
    ∷ (codes "mov", codes "QuickTime video")
    ∷ (codes "avi", codes "AVI video")
    ∷ (codes "webm", codes "WebM video")
    ∷ (codes "mp3", codes "MP3 audio")
    ∷ (codes "flac", codes "FLAC audio")
    ∷ (codes "wav", codes "WAV audio")
    ∷ (codes "m4a", codes "M4A audio")
    ∷ (codes "ogg", codes "Ogg audio")
    ∷ (codes "pdf", codes "PDF document")
    ∷ (codes "doc", codes "Word document")
    ∷ (codes "docx", codes "Word document")
    ∷ (codes "xls", codes "Excel spreadsheet")
    ∷ (codes "xlsx", codes "Excel spreadsheet")
    ∷ (codes "ppt", codes "PowerPoint presentation")
    ∷ (codes "pptx", codes "PowerPoint presentation")
    ∷ (codes "odt", codes "OpenDocument text")
    ∷ (codes "ods", codes "OpenDocument spreadsheet")
    ∷ (codes "odp", codes "OpenDocument presentation")
    ∷ (codes "txt", codes "Plain text")
    ∷ (codes "md", codes "Markdown text")
    ∷ (codes "csv", codes "CSV text")
    ∷ (codes "json", codes "JSON file")
    ∷ (codes "yaml", codes "YAML file")
    ∷ (codes "yml", codes "YAML file")
    ∷ (codes "log", codes "Log file")
    ∷ (codes "ipynb", codes "Jupyter notebook")
    ∷ (codes "zip", codes "ZIP archive")
    ∷ (codes "tar", codes "tar archive")
    ∷ (codes "gz", codes "gzip archive")
    ∷ (codes "tgz", codes "gzip archive")
    ∷ (codes "xz", codes "xz archive")
    ∷ (codes "bz2", codes "bzip2 archive")
    ∷ (codes "7z", codes "7-Zip archive")
    ∷ (codes "rar", codes "RAR archive")
    ∷ (codes "py", codes "Python script")
    ∷ (codes "sh", codes "Shell script")
    ∷ (codes "js", codes "JavaScript file")
    ∷ (codes "ts", codes "TypeScript file")
    ∷ (codes "c", codes "C source")
    ∷ (codes "h", codes "C header")
    ∷ (codes "cpp", codes "C++ source")
    ∷ (codes "go", codes "Go source")
    ∷ (codes "rs", codes "Rust source")
    ∷ (codes "java", codes "Java source")
    ∷ (codes "html", codes "HTML file")
    ∷ (codes "css", codes "CSS file")
    ∷ (codes "iso", codes "Disk image")
    ∷ (codes "deb", codes "Debian package")
    ∷ (codes "rpm", codes "RPM package")
    ∷ (codes "exe", codes "Windows program")
    ∷ (codes "dmg", codes "macOS disk image")
    ∷ []

abbrev pub lower : ℕ → ℕ
lower c = if leb 65 c && leb c 90 then c + 32 else c

abbrev upper : ℕ → ℕ
upper c = if leb 97 c && leb c 122 then c - 32 else c

-- Case mapping of the ASCII letters.
to_lower : Text → Text
to_lower [] = []
to_lower (c ∷ cs) = lower c ∷ to_lower cs

to_upper : Text → Text
to_upper [] = []
to_upper (c ∷ cs) = upper c ∷ to_upper cs

-- Whether a name ends in a dot and one of the extensions, in either case.
ends_in : List Text → Text → Bool
unfolding to_lower
ends_in [] name = false
ends_in (e ∷ es) name = is_prefix (reverse (dot ∷ e)) (reverse (to_lower name)) || ends_in es name

pub data Icon : Type 0 where
  folder picture film note box pdf_book document sheet slides page : Icon

pub icon_for : Text → (is_dir : Bool) → Icon
unfolding ends_in images videos audio archives
icon_for name is_dir =
    if is_dir
    then folder
    else if ends_in images name
    then picture
    else if ends_in videos name
    then film
    else if ends_in audio name
    then note
    else if ends_in archives name
    then box
    else if ends_in (codes "pdf" ∷ []) name
    then pdf_book
    else if ends_in (codes "doc" ∷ codes "docx" ∷ codes "odt" ∷ []) name
    then document
    else if ends_in (codes "xls" ∷ codes "xlsx" ∷ codes "ods" ∷ codes "csv" ∷ []) name
    then sheet
    else if ends_in (codes "ppt" ∷ codes "pptx" ∷ codes "odp" ∷ []) name
    then slides
    else page

kind_of_extension : Text → Text
unfolding kind_map to_upper
kind_of_extension ext = elim (lookup ext kind_map) [
  | some kind ↦ kind
  | none ↦ if same ext [] then codes "File" else to_upper ext ++ codes " file"
]

pub kind_of : Text → (is_dir : Bool) → Text
unfolding kind_of_extension extension to_lower
kind_of name is_dir =
    if is_dir then codes "Folder" else kind_of_extension (to_lower (extension name))
